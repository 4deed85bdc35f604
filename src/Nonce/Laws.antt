-- ===== src/Nonce/Laws.antt =====
-- packages/core/src/nonce.ts: the nonces that are handed out in a run.
use avok_js.Base.{
  ℕ, ◌+◌, ◌<◌, ◌≤◌, ◌≡◌, refl, sym, subst, arith, String, to_text, true, inl, inr, Option, some,
  List, [], ◌∷◌, All, Settled, fulfilled, rejected,
}
use avok_js.Nonce.{
  Write, written, lost, written_and_failed, Storage, Allocator, key_for, current_count, counted,
  persisted, allocated, allocate, next, Event, allocation, reload, Session, issue, fresh, step, run,
  begin,
}
use avok_js.Nonce.Counts.{
  floor, put-same, stored_count-to_text, floor-same, floor-other, floor-persisted, counter-cases,
  current-floor,
}

-- Each nonce that was handed out under a key is greater than those handed out before it.
abbrev pub IsAscending : List (String × ℕ) → Type 0
IsAscending [] = Unit
IsAscending ((k, n) ∷ t) = All (λ e. e.0 ≡ k → e.1 < n) t × IsAscending t

record IsAhead (s : Session) : Type 0 where
  below : All (λ e. e.1 < floor s.allocator e.0) s.issued
  counted_on : (k : String) (c : ℕ) → s.allocator.counters k ≡ some c → floor s.allocator k ≤ c
  ascending : IsAscending s.issued

All-map {ℓ κ μ} :
    {A : Type ℓ} {P : A → Type κ} {Q : A → Type μ} (xs : List A)
    → ((x : A) → P x → Q x)
    → All P xs
    → All Q xs
All-map [] f h = tt
All-map (x ∷ xs) f (p, h) = (f x p, All-map xs f h)

abbrev after : Write → String → ℕ → Session → Session
after w key c s = record {
  allocator = (allocated w key c s.allocator).1;
  issued = issue key (allocated w key c s.allocator).0 s.issued;
}

below-persisted :
    (s : Session) (key : String) (c : ℕ)
    → floor s.allocator key ≤ c
    → IsAhead s
    → All (λ e. e.1 < floor (persisted key c s.allocator) e.0) s.issued
below-persisted s key c h a =
    All-map s.issued (λ e l. let f = floor-persisted s.allocator key e.0 c h in omega arith) a.below

counted_on-persisted :
    (s : Session) (key : String) (c : ℕ)
    → IsAhead s
    → (k : String) (d : ℕ) → (counted key c s.allocator).counters k ≡ some d
    → floor (persisted key c s.allocator) k ≤ d
counted_on-persisted s key c a k d e = elim (counter-cases s.allocator key k c d e) [
  | inl (same, n) ↦
      subst (λ j. floor (persisted key c s.allocator) j ≤ d) (sym same)
        (let f = floor-same s.allocator key c in omega arith)
  | inr (other, before) ↦
      let f = floor-other s.allocator key k c other in
      let g = a.counted_on k d before in omega arith
]

issued_below :
    (s : Session) (key : String) (c : ℕ)
    → floor s.allocator key ≤ c
    → IsAhead s
    → All (λ e. e.0 ≡ key → e.1 < c) s.issued
issued_below s key c h a =
    All-map s.issued
      (λ e l same. let f = subst (λ j. e.1 < floor s.allocator j) same l in omega arith) a.below

after-IsAhead :
    (w : Write) (key : String) (c : ℕ) (s : Session)
    → floor s.allocator key ≤ c
    → IsAhead s
    → IsAhead (after w key c s)
after-IsAhead written key c s h a = record {
  below = (let f = floor-same s.allocator key c in omega arith, below-persisted s key c h a);
  counted_on = counted_on-persisted s key c a;
  ascending = (issued_below s key c h a, a.ascending);
}
after-IsAhead written_and_failed key c s h a = record {
  below = below-persisted s key c h a;
  counted_on = counted_on-persisted s key c a;
  ascending = a.ascending;
}
after-IsAhead lost key c s h a = record {
  below = a.below;
  counted_on = λ k d e. elim (counter-cases s.allocator key k c d e) [
    | inl (same, n) ↦ subst (λ j. floor s.allocator j ≤ d) (sym same) (omega arith)
    | inr (other, before) ↦ a.counted_on k d before
  ];
  ascending = a.ascending;
}

allocate-IsAhead :
    (m : Settled ℕ) (w : Write) (key : String) (s : Session)
    → ((c : ℕ) → m ≡ fulfilled c → floor s.allocator key ≤ c)
    → IsAhead s
    → IsAhead (record {
      allocator = (allocate m w key s.allocator).1;
      issued = issue key (allocate m w key s.allocator).0 s.issued;
    })
allocate-IsAhead (rejected f) w key s h a = record {
  below = a.below;
  counted_on = a.counted_on;
  ascending = a.ascending;
}
allocate-IsAhead (fulfilled c) w key s h a = after-IsAhead w key c s (h c refl) a

step-IsAhead : (s : Session) (e : Event) → IsAhead s → IsAhead (step s e)
unfolding step next
step-IsAhead s (allocation address storage) a =
    let key = key_for address in
    allocate-IsAhead
      (current_count storage.readable (s.allocator.counters key) (s.allocator.stored key))
      storage.write key s
      (λ c.
        current-floor storage.readable (s.allocator.counters key) (s.allocator.stored key) c
          (a.counted_on key))
      a
step-IsAhead s reload a = record {
  below = a.below;
  counted_on = λ k c e. cc;
  ascending = a.ascending;
}

run-IsAhead : (s : Session) (es : List Event) → IsAhead s → IsAhead (run s es)
unfolding run
run-IsAhead s [] a = a
run-IsAhead s (e ∷ es) a = run-IsAhead (step s e) es (step-IsAhead s e a)

-- Whatever was stored before, however the reads and writes of the storage fail, and whenever the page is
-- reloaded: each nonce that is handed out for a wallet is greater than all that were handed out for it
-- before, so none is handed out twice.
pub nonces_ascend :
    (stored : String → Option String) (es : List Event) → IsAscending (run (begin stored) es).issued
nonces_ascend stored es =
    (run-IsAhead (begin stored) es
      (record { below = tt; counted_on = λ k c e. cc; ascending = tt })).ascending

abbrev pub working : Storage
working = record { readable = true; write = written }

abbrev pub reloaded : Allocator → Allocator
reloaded s = fresh s.stored

handed_out :
    (m : Settled ℕ) (key : String) (s : Allocator) (n : ℕ)
    → (allocate m written key s).0 ≡ fulfilled n
    → m ≡ fulfilled n
handed_out (fulfilled c) key s n h = h
handed_out (rejected f) key s n h = cc

-- What the next allocation under a key hands out.
abbrev next_count : String → Allocator → Settled ℕ
next_count key s = (allocate (current_count true (s.counters key) (s.stored key)) written key s).0

abbrev CountsOn : String → Allocator → ℕ → Type 0
CountsOn key s n =
    (next_count key s ≡ fulfilled (n + 1)) × (next_count key (reloaded s) ≡ fulfilled (n + 1))

allocated-CountsOn :
    (key : String) (n : ℕ) (s : Allocator) → CountsOn key (allocated written key n s).1 n
allocated-CountsOn key n s = (
  rw (next_count, put-same s.counters key (n + 1)) refl,
  rw (next_count, put-same s.stored key (to_text (n + 1)), stored_count-to_text (n + 1)) refl,
)

-- After an allocation that was handed out, the next one for the same wallet hands out the number after
-- it, on the same page and on a page that has been reloaded.
pub next_counts_on :
    (s : Allocator) (address : String) (n : ℕ)
    → (next address working s).0 ≡ fulfilled n
    → ((next address working (next address working s).1).0 ≡ fulfilled (n + 1))
      × ((next address working (reloaded (next address working s).1)).0 ≡ fulfilled (n + 1))
unfolding next
next_counts_on s address n h =
    let key = key_for address in
    let e = handed_out (current_count true (s.counters key) (s.stored key)) key s n h in
    subst (λ m. CountsOn key (allocate m written key s).1 n) (sym e) (allocated-CountsOn key n s)
