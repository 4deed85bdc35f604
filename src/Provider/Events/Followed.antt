-- ===== src/Provider/Events/Followed.antt =====
-- Following the events gives the state of the connection.
use avok_js.Base.{
  String, ◌===◌, ===_iff, ◌≡◌, ◌≢◌, refl, sym, ap, ◌∙◌, subst, Bool, true, false, not, ◌&&◌, Option,
  none, some, List, [], ◌∷◌, ◌++◌,
}
use avok_js.Provider.Methods.{accounts_of}
use avok_js.Provider.Events.{
  State, Event, connect, disconnect, accounts_changed, Seen, seen_in, is_connected, differs, when,
  on_notified, emitted,
}

-- What a page that only listens knows.
pub record View : Type 0 where
  pub connected : Bool
  pub accounts : List String

abbrev pub view_of : Seen → View
view_of s = record { connected = s.prev_connected; accounts = accounts_of s.prev_addr }

abbrev pub follow : View → Event → View
follow v (connect chain) = record v { connected = true }
follow v disconnect = record v { connected = false }
follow v (accounts_changed as_now) = record v { accounts = as_now }

abbrev pub follow_all : View → List Event → View
follow_all v [] = v
follow_all v (e ∷ es) = follow_all (follow v e) es

-- Each event tells something new.
abbrev pub AreNews : View → List Event → Type 0
AreNews v [] = Unit
AreNews v (e ∷ es) = (follow v e ≢ v) × AreNews (follow v e) es

follow_all-append :
    (v : View) (es fs : List Event) → follow_all v (es ++ fs) ≡ follow_all (follow_all v es) fs
follow_all-append v [] fs = refl
follow_all-append v (e ∷ es) fs = follow_all-append (follow v e) es fs

AreNews-append :
    (v : View) (es fs : List Event)
    → AreNews v es
    → AreNews (follow_all v es) fs
    → AreNews v (es ++ fs)
AreNews-append v [] fs h k = k
AreNews-append v (e ∷ es) fs (n, h) k = (n, AreNews-append (follow v e) es fs h k)

-- A step of the listener, on what was connected before and what is now.
record Step (v w : View) (es : List Event) : Type 0 where
  reaches : follow_all v es ≡ w
  are_news : AreNews v es

Step-append : {v w x : View} (es fs : List Event) → Step v w es → Step w x fs → Step v x (es ++ fs)
Step-append {v} es fs h k = record {
  reaches = follow_all-append v es fs ∙ ap (λ u. follow_all u fs) h.reaches ∙ k.reaches;
  are_news =
      AreNews-append v es fs h.are_news (subst (λ u. AreNews u fs) (sym h.reaches) k.are_news);
}

connection-Step :
    (before now : Bool) (accounts : List String) (chain : String)
    → Step
        (record { connected = before; accounts = accounts })
        (record { connected = now; accounts = accounts })
        (when (now && not before) (connect chain) ++ when (not now && before) disconnect)
connection-Step true true accounts chain = record { reaches = refl; are_news = tt }
connection-Step false false accounts chain = record { reaches = refl; are_news = tt }
connection-Step true false accounts chain = record {
  reaches = refl;
  are_news = (λ e. let c = ap (λ (v : View). v.connected) e in cc, tt);
}
connection-Step false true accounts chain = record {
  reaches = refl;
  are_news = (λ e. let c = ap (λ (v : View). v.connected) e in cc, tt);
}

accounts-Step :
    (before now : Option String) (connected : Bool)
    → Step
        (record { connected = connected; accounts = accounts_of before })
        (record { connected = connected; accounts = accounts_of now })
        (when (differs now before) (accounts_changed (accounts_of now)))
accounts-Step none none c = record { reaches = refl; are_news = tt }
accounts-Step none (some a) c = record {
  reaches = refl;
  are_news = (λ e. let d = ap (λ (v : View). v.accounts) e in cc, tt);
}
accounts-Step (some a) none c = record {
  reaches = refl;
  are_news = (λ e. let d = ap (λ (v : View). v.accounts) e in cc, tt);
}
accounts-Step (some a) (some b) c = compared (b === a) refl
  where
    compared :
        (t : Bool)
        → (b === a) ≡ t
        → Step
            (record { connected = c; accounts = a ∷ [] })
            (record { connected = c; accounts = b ∷ [] })
            (when (not t) (accounts_changed (b ∷ [])))
    compared true e = record {
      reaches = ap (λ x. record { connected = c; accounts = x ∷ [] }) (sym ((===_iff b a).0 e));
      are_news = tt;
    }
    compared false e = record {
      reaches = refl;
      are_news = (
        λ z.
            let d = ap (λ (v : View). v.accounts) z in
            let same : b ≡ a = cc in let t = sym e ∙ (===_iff b a).1 same in cc,
        tt,
      );
    }

notified-Step :
    (seen : Seen) (now : State)
    → Step (view_of seen) (view_of (seen_in now)) (on_notified seen now).0
unfolding on_notified
notified-Step seen now =
    Step-append _ _
      (connection-Step seen.prev_connected (is_connected now) (accounts_of seen.prev_addr) _)
      (accounts-Step seen.prev_addr now.account (is_connected now))

abbrev pub last_seen : Seen → List State → Seen
last_seen seen [] = seen
last_seen seen (s ∷ ss) = last_seen (seen_in s) ss

emitted-Step :
    (seen : Seen) (states : List State)
    → Step (view_of seen) (view_of (last_seen seen states)) (emitted seen states)
unfolding emitted
emitted-Step seen [] = record { reaches = refl; are_news = tt }
emitted-Step seen (s ∷ ss) = Step-append _ _ (notified-Step seen s) (emitted-Step (seen_in s) ss)

-- A page that follows the events from the provider's creation on knows, after every notification, whether the
-- wallet is connected and with which accounts; and each event that it gets tells it something new.
pub events_followed :
    (seen : Seen) (states : List State)
    → (follow_all (view_of seen) (emitted seen states) ≡ view_of (last_seen seen states))
      × AreNews (view_of seen) (emitted seen states)
events_followed seen states = let h = emitted-Step seen states in (h.reaches, h.are_news)
