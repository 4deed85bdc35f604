-- ===== src/Channel/Storage.antt =====
-- packages/core/src/channel/storage.ts: where the connected account is kept.
use avok_js.Base.{
  ◌≡◌, refl, subst, fulfilled-injective, String, ◌===◌, ===_refl, if◌then◌else◌, Option, none, some,
  List, [], ◌∷◌, Value, null, Settled, fulfilled, rejected, Bool-cases, inl, inr,
}

-- The adapter that the application supplies, with what a key-value store promises. A write may throw, as that
-- of a browser's full storage does, and then it has written nothing.
pub record StorageAdapter : Type 1 where
  pub Store : Type 0
  pub get : String → Store → Option String
  pub set : String → String → Store → Settled Store
  pub remove : String → Store → Store
  pub get-set : (k v : String) (s s' : Store) → set k v s ≡ fulfilled s' → get k s' ≡ some v
  pub get-remove : (k : String) (s : Store) → get k (remove k s) ≡ none

-- `JSON`, and the text that a template puts in for a value.
pub record Json : Type 0 where
  pub stringify : Value → String
  pub parse : String → Settled Value
  pub template : Value → String

abbrev pub account_key : String
account_key = "avok.account"

module _ (json : Json) (storage : StorageAdapter) where
  unfoldable pub save_account : storage.Store → Value → Settled storage.Store
  save_account s account = storage.set account_key (json.stringify account) s

  abbrev pub or_null : Settled Value → Value
  or_null (fulfilled v) = v
  or_null (rejected e) = null

  -- `null` where nothing is kept, or where it does not parse.
  abbrev pub parsed : Option String → Value
  parsed none = null
  parsed (some value) = or_null (json.parse value)

  unfoldable pub load_account : storage.Store → Value
  load_account s = parsed (storage.get account_key s)

  unfoldable pub clear_account : storage.Store → storage.Store
  clear_account s = storage.remove account_key s

-- A `Map` of texts: setting a key that is there keeps its place.
pub record Entry : Type 0 where
  pub key : String
  pub value : String

abbrev pub map_get : String → List Entry → Option String
map_get k [] = none
map_get k (e ∷ es) = if e.key === k then some e.value else map_get k es

abbrev pub map_set : String → String → List Entry → List Entry
map_set k v [] = record { key = k; value = v } ∷ []
map_set k v (e ∷ es) = if e.key === k then record e { value = v } ∷ es else e ∷ map_set k v es

abbrev pub map_delete : String → List Entry → List Entry
map_delete k [] = []
map_delete k (e ∷ es) = if e.key === k then map_delete k es else e ∷ map_delete k es

map_get-map_set : (k v : String) (es : List Entry) → map_get k (map_set k v es) ≡ some v
map_get-map_set k v [] = rw (===_refl k) refl
map_get-map_set k v (e ∷ es) = elim (Bool-cases (e.key === k)) [
  | inl h ↦ rw (h, h) refl
  | inr h ↦ rw (h, h) (map_get-map_set k v es)
]

map_get-map_delete : (k : String) (es : List Entry) → map_get k (map_delete k es) ≡ none
map_get-map_delete k [] = refl
map_get-map_delete k (e ∷ es) = elim (Bool-cases (e.key === k)) [
  | inl h ↦ rw h (map_get-map_delete k es)
  | inr h ↦ rw (h, h) (map_get-map_delete k es)
]

map_get-written :
    (k v : String) (es fs : List Entry)
    → fulfilled (map_set k v es) ≡ fulfilled fs
    → map_get k fs ≡ some v
map_get-written k v es fs h =
    subst (λ t. map_get k t ≡ some v) (fulfilled-injective h) (map_get-map_set k v es)

-- `memoryStorage()`
unfoldable pub memory_storage : StorageAdapter
unfolding map_get-written map_get-map_set map_get-map_delete
memory_storage = record {
  Store = List Entry;
  get = map_get;
  set = λ k v es. fulfilled (map_set k v es);
  remove = map_delete;
  get-set = map_get-written;
  get-remove = map_get-map_delete;
}

-- The store of `memoryStorage()` at first.
unfoldable pub empty_store : memory_storage.Store
unfolding memory_storage
empty_store = []
