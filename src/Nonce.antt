-- ===== src/Nonce.antt =====
-- packages/core/src/nonce.ts: the allocators of single-use nonces.
-- Allocations are serialized by the code, so a run is a list of allocations and reloads of the page. What
-- the storage does at each call is part of the event. A stored text is what an allocator wrote, a decimal
-- number, or any other text that `BigInt` reads as a natural number or throws on. A reload stands wherever a
-- page ends, before or after a write that it waited for.
pub mod Counts
pub mod Laws
pub mod Random
use Prim.Native.String
use avok_js.Base.{
  ℕ, ◌+◌, ◌*◌, String, ◌===◌, to_lower_case, to_text, if◌then◌else◌, Bool, true, false, Option,
  none, some, List, [], ◌∷◌, Failure, Settled, fulfilled, rejected, throw,
}
use avok_js.Consent.Danger.{big_int}

-- `storage.set`: it resolves, or it rejects with or without having written.
pub data Write : Type 0 where
  written lost written_and_failed : Write

pub record Storage : Type 0 where
  pub readable : Bool
  pub write : Write

-- The closure's counters, and what is stored.
pub record Allocator : Type 0 where
  pub counters : String → Option ℕ
  pub stored : String → Option String

abbrev pub put {ℓ} : {V : Type ℓ} → (String → Option V) → String → V → String → Option V
put f k v j = if j === k then some v else f j

abbrev pub key_for : String → String
key_for address = String.◌++◌ "avok:nonce-seq:" (to_lower_case address)

-- `stored != null ? BigInt(stored) : 0n`
abbrev pub stored_count : Option String → Settled ℕ
stored_count none = fulfilled 0
stored_count (some t) = elim (big_int t) [
  | none ↦ throw "Cannot convert to a BigInt"
  | some n ↦ fulfilled n
]

abbrev pub current_count : Bool → Option ℕ → Option String → Settled ℕ
current_count readable (some c) text = fulfilled c
current_count true none text = stored_count text
current_count false none text = throw "storage.get"

-- The counter moves on before the write is waited for.
abbrev pub counted : String → ℕ → Allocator → Allocator
counted key c s = record s { counters = put s.counters key (c + 1) }

abbrev pub persisted : String → ℕ → Allocator → Allocator
persisted key c s = record s { stored = put s.stored key (to_text (c + 1)) }

abbrev pub allocated : Write → String → ℕ → Allocator → Settled ℕ × Allocator
allocated written key c s = (fulfilled c, persisted key c (counted key c s))
allocated written_and_failed key c s = (throw "storage.set", persisted key c (counted key c s))
allocated lost key c s = (throw "storage.set", counted key c s)

abbrev pub allocate : Settled ℕ → Write → String → Allocator → Settled ℕ × Allocator
allocate (rejected f) w key s = (rejected f, s)
allocate (fulfilled c) w key s = allocated w key c s

unfoldable pub next : String → Storage → Allocator → Settled ℕ × Allocator
next address storage s =
    let key = key_for address in
    allocate (current_count storage.readable (s.counters key) (s.stored key)) storage.write key s

pub data Event : Type 0 where
  allocation : (address : String) → Storage → Event
  reload : Event

-- A page that allocates, with what it has handed out, newest first.
pub record Session : Type 0 where
  pub allocator : Allocator
  pub issued : List (String × ℕ)

abbrev pub issue : String → Settled ℕ → List (String × ℕ) → List (String × ℕ)
issue key (fulfilled n) t = (key, n) ∷ t
issue key (rejected f) t = t

-- `createSequentialNonceAllocator`: no counter is in memory.
abbrev pub fresh : (String → Option String) → Allocator
fresh stored = record { counters = λ k. none; stored = stored }

unfoldable pub step : Session → Event → Session
unfolding next
step s (allocation address storage) = record {
  allocator = (next address storage s.allocator).1;
  issued = issue (key_for address) (next address storage s.allocator).0 s.issued;
}
step s reload = record s { allocator = fresh s.allocator.stored }

unfoldable pub run : Session → List Event → Session
unfolding step
run s [] = s
run s (e ∷ es) = run (step s e) es

abbrev pub begin : (String → Option String) → Session
begin stored = record { allocator = fresh stored; issued = [] }

-- `n = (n << 8n) | BigInt(b)` over the bytes: a byte is below 256, so this adds.
unfoldable pub from_bytes : ℕ → List ℕ → ℕ
from_bytes n [] = n
from_bytes n (b ∷ bs) = from_bytes (n * 256 + b) bs
