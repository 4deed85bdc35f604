-- ===== src/Wallet/Handle.antt =====
-- packages/core/src/wallet/passkey/label.ts: nicknames of credentials, and the handles that route them to a
-- wallet. Bytes are lists of numbers; `crypto.getRandomValues` gives the random bytes as an argument.
pub mod Laws
use Prim.Native.String
use avok_js.Base.{
  ℕ, zero, suc, ◌+◌, ◌%◌, ◌==◌, leb, String, if◌then◌else◌, ◌or_else◌, List, [], ◌∷◌, length,
  get_elem?, Settled, fulfilled, rejected, ◌>>=◌, throw, to_text,
}

-- viem's conversions.
pub record Hexes : Type 0 where
  pub keccak256 : List ℕ → List ℕ
  pub get_address : String → Settled String
  pub hex_to_bytes : String → List ℕ
  pub bytes_to_hex : List ℕ → String

abbrev pub nick_adjectives : List String
nick_adjectives =
    "Amber" ∷ "Brave" ∷ "Calm" ∷ "Cobalt" ∷ "Crimson" ∷ "Dawn" ∷ "Ember" ∷ "Fern" ∷ "Golden"
    ∷ "Hazel" ∷ "Indigo" ∷ "Jade" ∷ "Lunar" ∷ "Mellow" ∷ "Noble" ∷ "Onyx" ∷ "Pearl" ∷ "Quartz"
    ∷ "Ruby" ∷ "Sage" ∷ "Teal" ∷ "Umber" ∷ "Velvet" ∷ "Wren" ∷ []

abbrev pub nick_nouns : List String
nick_nouns =
    "Otter" ∷ "Falcon" ∷ "Cedar" ∷ "Lynx" ∷ "Heron" ∷ "Maple" ∷ "Bison" ∷ "Coral" ∷ "Finch"
    ∷ "Willow" ∷ "Marten" ∷ "Osprey" ∷ "Birch" ∷ "Sparrow" ∷ "Alder" ∷ "Raven" ∷ "Fox" ∷ "Crane"
    ∷ "Elm" ∷ "Badger" ∷ "Kestrel" ∷ "Aspen" ∷ "Marlin" ∷ "Robin" ∷ []

abbrev pub byte_at : List ℕ → ℕ → ℕ
byte_at bytes i = get_elem? bytes i or_else 0

abbrev pub word_at : List String → ℕ → String
word_at words n = get_elem? words n or_else "undefined"

abbrev pub kind_self : ℕ
kind_self = 1

abbrev pub kind_roster : ℕ
kind_roster = 2

pub data UserHandle : Type 0 where
  self : UserHandle
  roster : (wallet_address : String) → UserHandle

abbrev pub zeros : ℕ → List ℕ
zeros zero = []
zeros (suc n) = 0 ∷ zeros n

abbrev pub overwrite : List ℕ → List ℕ → List ℕ
overwrite [] out = out
overwrite (b ∷ bs) [] = []
overwrite (b ∷ bs) (o ∷ out) = b ∷ overwrite bs out

abbrev pub overwrite_at : ℕ → List ℕ → List ℕ → List ℕ
overwrite_at zero bs out = overwrite bs out
overwrite_at (suc n) bs [] = []
overwrite_at (suc n) bs (o ∷ out) = o ∷ overwrite_at n bs out

-- `out.set(bytes, offset)`
unfoldable pub set_bytes : List ℕ → ℕ → List ℕ → Settled (List ℕ)
set_bytes bytes offset out =
    if leb (offset + length bytes) (length out)
    then fulfilled (overwrite_at offset bytes out)
    else rejected (record { name = "RangeError"; message = "offset is out of bounds" })

abbrev pub first_bytes : ℕ → List ℕ → List ℕ
first_bytes zero bs = []
first_bytes (suc n) [] = []
first_bytes (suc n) (b ∷ bs) = b ∷ first_bytes n bs

abbrev pub without : ℕ → List ℕ → List ℕ
without zero bs = bs
without (suc n) [] = []
without (suc n) (b ∷ bs) = without n bs

-- `encodeSelfHandle`, with the 32 bytes that it draws.
unfoldable pub encode_self_handle : List ℕ → Settled (List ℕ)
unfolding set_bytes
encode_self_handle random = set_bytes random 1 (overwrite_at 0 (kind_self ∷ []) (zeros 33))

module _ (h : Hexes) where
  unfoldable pub handle_label : (network_name : String) → List ℕ → String
  handle_label network_name handle =
      let hash = h.keccak256 handle in
      String.◌++◌ network_name (
        String.◌++◌ " Wallet · " (
          String.◌++◌ (word_at nick_adjectives (byte_at hash 0 % length nick_adjectives))
            (String.◌++◌ " " (word_at nick_nouns (byte_at hash 1 % length nick_nouns)))))

  -- `encodeRosterHandle`, with the 8 bytes that it draws.
  unfoldable pub encode_roster_handle : String → List ℕ → Settled (List ℕ)
  unfolding set_bytes
  encode_roster_handle wallet_address random = do
    address ← h.get_address wallet_address
    with_address ←
        set_bytes (h.hex_to_bytes address) 1 (overwrite_at 0 (kind_roster ∷ []) (zeros 29))
    set_bytes random 21 with_address

  abbrev pub routed : List ℕ → Settled UserHandle
  routed bytes = h.get_address (h.bytes_to_hex (first_bytes 20 (without 1 bytes))) >>= λ a.
      fulfilled (roster a)

  -- `undefined`, of no bytes, is an unknown kind.
  unfoldable pub decode_user_handle : List ℕ → Settled UserHandle
  unfolding to_text
  decode_user_handle [] = throw "Passkey user handle has an unknown kind byte: undefined"
  decode_user_handle (kind ∷ bytes) =
      if kind == kind_self
      then (if length (kind ∷ bytes) == 33
          then fulfilled self
          else throw "Self user handle is not 33 bytes")
      else (if kind == kind_roster
          then (if length (kind ∷ bytes) == 29
              then routed (kind ∷ bytes)
              else throw "Roster user handle is not 29 bytes")
          else throw (String.◌++◌ "Passkey user handle has an unknown kind byte: " (to_text kind)))
