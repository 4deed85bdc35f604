-- ===== src/Provider/Events.antt =====
-- packages/core/src/provider/eip1193.ts: the events of the provider, derived from the state of the connection.
pub mod Followed
use avok_js.Base.{
  ℕ, String, ◌===◌, if◌then◌else◌, Bool, true, false, not, ◌&&◌, Option, none, some, is_some, List,
  [], ◌∷◌, ◌++◌,
}
use avok_js.Provider.Methods.{accounts_of, chain_id_hex}

-- `connection.status()` and the address of `connection.account()`, with the provider's chain.
pub record State : Type 0 where
  pub status : Bool
  pub account : Option String
  pub chain_id : ℕ

pub data Event : Type 0 where
  connect : String → Event
  disconnect : Event
  accounts_changed : List String → Event

-- `prevConnected` and `prevAddr`.
pub record Seen : Type 0 where
  pub prev_connected : Bool
  pub prev_addr : Option String

abbrev pub is_connected : State → Bool
is_connected s = s.status && is_some s.account

abbrev pub seen_in : State → Seen
seen_in s = record { prev_connected = is_connected s; prev_addr = s.account }

-- `nowAddr !== prevAddr`
abbrev pub differs : Option String → Option String → Bool
differs none none = false
differs none (some b) = true
differs (some a) none = true
differs (some a) (some b) = not (a === b)

abbrev pub when : Bool → Event → List Event
when true e = e ∷ []
when false e = []

-- The listener that the provider subscribes: what it emits, and what it remembers.
unfoldable pub on_notified : Seen → State → List Event × Seen
unfolding chain_id_hex
on_notified seen now = (
  (when (is_connected now && not seen.prev_connected) (connect (chain_id_hex now.chain_id))
        ++ when (not (is_connected now) && seen.prev_connected) disconnect)
      ++ when (differs now.account seen.prev_addr) (accounts_changed (accounts_of now.account)),
  seen_in now,
)

-- All that is emitted from a provider's creation on, over the states at the notifications.
unfoldable pub emitted : Seen → List State → List Event
unfolding on_notified
emitted seen [] = []
emitted seen (s ∷ ss) = (on_notified seen s).0 ++ emitted (on_notified seen s).1 ss
