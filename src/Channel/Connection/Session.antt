-- ===== src/Channel/Connection/Session.antt =====
-- packages/core/src/channel/connection.ts: the connection as a session of one account.
use avok_js.Base.{
  ◌≡◌, refl, sym, ap, ◌∙◌, subst, String, if◌then◌else◌, Bool, true, false, not, ◌&&◌, Option, none,
  List, [], ◌∷◌, All, Value, Settled, fulfilled, rejected, ◌>>=◌, truthy, null, undefined,
  nullish_else, str, bool, num, arr, obj,
}
use avok_js.Channel.Storage.{
  StorageAdapter, Json, save_account, load_account, clear_account, or_null, account_key, parsed,
}
use avok_js.Channel.Connection.{
  Verifier, Connection, create_connection, resolve_account, logout, proven_account, keep_proven,
  kept_in, connect, restored_account, has_address, Account,
}

module _ (json : Json) (storage : StorageAdapter) (v : Verifier) (origin_point : String) where
  abbrev C : Type 0
  C = Connection json storage v origin_point

  pub data Command : Type 0 where
    connecting : (nonce : String) → Settled Value → Command
    signing_out : Command
    reloading : Command
    asking_account : Command

  abbrev pub step : Command → C → C
  step (connecting nonce reply) c = (connect json storage v origin_point nonce reply c).1
  step signing_out c = logout json storage v origin_point c
  step reloading c = create_connection json storage v origin_point c.store
  step asking_account c = (restored_account json storage v origin_point c).1

  unfoldable pub run : List Command → C → C
  unfolding connect logout restored_account
  run [] c = c
  run (k ∷ ks) c = run ks (step k c)

  -- The abstract session is one account, or `null`.
  abbrev pub proven_or : Value → Settled Value → Value
  proven_or session (fulfilled account) = account
  proven_or session (rejected e) = session

  abbrev pub usable : Value → Value
  usable session =
      if truthy session && not (has_address json storage v origin_point session)
      then null
      else session

  abbrev pub session_step : Command → Value → Value
  session_step (connecting nonce reply) session =
      proven_or session (reply >>= proven_account json storage v origin_point nonce)
  session_step signing_out session = null
  session_step reloading session = session
  session_step asking_account session = usable session

  unfoldable pub session_run : List Command → Value → Value
  unfolding proven_account has_address
  session_run [] session = session
  session_run (k ∷ ks) session = session_run ks (session_step k session)

  abbrev pub SurvivesJson : Settled Value → Type 0
  SurvivesJson (fulfilled account) = json.parse (json.stringify account) ≡ fulfilled account
  SurvivesJson (rejected e) = Unit

  -- JSON keeps the account that the command connects, if any.
  abbrev pub IsRestorable : Command → Type 0
  IsRestorable (connecting nonce reply) =
      SurvivesJson (reply >>= proven_account json storage v origin_point nonce)
  IsRestorable _ = Unit

  abbrev view : C → Value
  view c = resolve_account json storage v origin_point c

  abbrev reloaded : C → Value
  reloaded c = load_account json storage c.store

  nullish_else_same : (a : Value) → nullish_else a a ≡ a
  nullish_else_same undefined = refl
  nullish_else_same null = refl
  nullish_else_same (bool b) = refl
  nullish_else_same (num n) = refl
  nullish_else_same (str s) = refl
  nullish_else_same (arr vs) = refl
  nullish_else_same (obj ps) = refl

  abbrev pub IsSynced : C → Value → Type 0
  IsSynced c session = (view c ≡ session) × (reloaded c ≡ session)

  -- The storage takes whatever is written.
  abbrev pub TakesWrites : Type 0
  TakesWrites =
      (k value : String) (s : storage.Store)
      → (s' : storage.Store) × (storage.set k value s ≡ fulfilled s')

  reload_saved :
      (store saved : storage.Store) (account : Value)
      → json.parse (json.stringify account) ≡ fulfilled account
      → save_account json storage store account ≡ fulfilled saved
      → load_account json storage saved ≡ account
  unfolding save_account load_account
  reload_saved store saved account k written =
      ap (parsed json storage)
        (storage.get-set account_key (json.stringify account) store saved written)
      ∙ ap (or_null json storage) k

  kept_in_agrees :
      (c : C) (session account : Value) (r : Settled storage.Store) (saved : storage.Store)
      → r ≡ fulfilled saved
      → save_account json storage c.store account ≡ r
      → json.parse (json.stringify account) ≡ fulfilled account
      → IsSynced (kept_in json storage v origin_point c account r).1 account
  unfolding resolve_account
  kept_in_agrees c session account (rejected e) saved h written k = cc
  kept_in_agrees c session account (fulfilled store) saved h written k =
      let r = reload_saved c.store store account k written in
      (ap (nullish_else account) r ∙ nullish_else_same account, r)

  keep_proven_agrees :
      (c : C) (session : Value) (m : Settled Value)
      → TakesWrites
      → IsSynced c session
      → SurvivesJson m
      → IsSynced (keep_proven json storage v origin_point c m).1 (proven_or session m)
  unfolding save_account
  keep_proven_agrees c session (rejected e) takes h k = h
  keep_proven_agrees c session (fulfilled account) takes h k =
      let (saved, written) = takes account_key (json.stringify account) c.store in
      kept_in_agrees c session account _ saved written refl k

  reload_cleared :
      (store : storage.Store) → load_account json storage (clear_account json storage store) ≡ null
  unfolding clear_account load_account
  reload_cleared store = ap (parsed json storage) (storage.get-remove account_key store)

  logout_agrees : (c : C) → IsSynced (logout json storage v origin_point c) null
  unfolding logout resolve_account
  logout_agrees c = (reload_cleared c.store, reload_cleared c.store)

  abbrev asked :
      Bool
      → Bool
      → Option (Account json storage v origin_point)
      → C
      → Option (Account json storage v origin_point) × C
  asked t b o c =
      if t then (if b then (o, c) else (none, logout json storage v origin_point c)) else (none, c)

  asked_agrees :
      (t b : Bool) (c : C) (session : Value) (o : Option (Account json storage v origin_point))
      → IsSynced c session
      → IsSynced (asked t b o c).1 (if t && not b then null else session)
  asked_agrees true true c session o h = h
  asked_agrees true false c session o h = logout_agrees c
  asked_agrees false b c session o h = h

  restored_agrees :
      (c : C) (session : Value)
      → IsSynced c session
      → IsSynced (restored_account json storage v origin_point c).1 (usable session)
  unfolding restored_account
  restored_agrees c session (h, k) =
      subst (λ s. IsSynced (restored_account json storage v origin_point c).1 (usable s)) h
        (asked_agrees (truthy (view c)) (has_address json storage v origin_point (view c)) c
          (view c) _ (refl, k ∙ sym h))

  step_agrees :
      (k : Command) (c : C) (session : Value)
      → TakesWrites
      → IsSynced c session
      → IsRestorable k
      → IsSynced (step k c) (session_step k session)
  unfolding connect resolve_account
  step_agrees (connecting nonce reply) c session t h r = keep_proven_agrees c session _ t h r
  step_agrees signing_out c session t h r = logout_agrees c
  step_agrees reloading c session t h r = (h.1, h.1)
  step_agrees asking_account c session t h r = restored_agrees c session h

  run_agrees :
      (ks : List Command) (c : C) (session : Value)
      → TakesWrites
      → IsSynced c session
      → All IsRestorable ks
      → IsSynced (run ks c) (session_run ks session)
  unfolding run session_run
  run_agrees [] c session t h r = h
  run_agrees (k ∷ ks) c session t h (r, rs) =
      run_agrees ks (step k c) (session_step k session) t (step_agrees k c session t h r) rs

  -- From the load of a page on, through any connects, sign-outs, reloads and reads of the account, the
  -- account that the connection answers with, and the one that a reload would find, are those of a session
  -- that holds one account: a proven connect replaces it, a sign-out and the reading of an account without
  -- an address empty it, and nothing else touches it; where JSON keeps the accounts that were connected and
  -- the storage takes what is written.
  pub session_refined :
      (store : storage.Store) (ks : List Command)
      → TakesWrites
      → All IsRestorable ks
      → (resolve_account json storage v origin_point
            (run ks (create_connection json storage v origin_point store))
          ≡ session_run ks (load_account json storage store))
        × (load_account json storage
              (run ks (create_connection json storage v origin_point store)).store
            ≡ session_run ks (load_account json storage store))
  unfolding resolve_account
  session_refined store ks t r = run_agrees ks _ _ t (refl, refl) r
