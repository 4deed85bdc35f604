-- ===== src/Wallet/Handle/Laws.antt =====
-- Handles are read back.
use avok_js.Base.{
  ℕ, zero, suc, ◌+◌, ◌≡◌, refl, sym, ap, ◌∙◌, arith, String, List, [], ◌∷◌, ◌++◌, length,
  length-append, append-nil, fulfilled, ◌>>=◌, leb_iff, ==_iff,
}
use avok_js.Wallet.Handle.{
  Hexes, self, roster, zeros, overwrite, overwrite_at, set_bytes, first_bytes, encode_self_handle,
  encode_roster_handle, decode_user_handle,
}

overwrite-zeros :
    (bs : List ℕ) (n m : ℕ) → m ≡ length bs + n → overwrite bs (zeros m) ≡ bs ++ zeros n
overwrite-zeros [] n m h = ap zeros (omega (arith, h))
overwrite-zeros (b ∷ bs) n zero h = ground arith
overwrite-zeros (b ∷ bs) n (suc m) h = ap (◌∷◌ b) (overwrite-zeros bs n m (omega (arith, h)))

overwrite_at-append :
    (bs cs out : List ℕ) → overwrite_at (length bs) cs (bs ++ out) ≡ bs ++ overwrite cs out
overwrite_at-append [] cs out = refl
overwrite_at-append (b ∷ bs) cs out = ap (◌∷◌ b) (overwrite_at-append bs cs out)

first_bytes-append : (bs cs : List ℕ) → first_bytes (length bs) (bs ++ cs) ≡ bs
first_bytes-append [] cs = refl
first_bytes-append (b ∷ bs) cs = ap (◌∷◌ b) (first_bytes-append bs cs)

length-zeros : (n : ℕ) → length (zeros n) ≡ n
length-zeros zero = refl
length-zeros (suc n) = ap suc (length-zeros n)

-- Bytes are put where the zeros after a prefix stand.
set_bytes-zeros :
    (pre bs : List ℕ) (n m : ℕ)
    → m ≡ length bs + n
    → set_bytes bs (length pre) (pre ++ zeros m) ≡ fulfilled (pre ++ (bs ++ zeros n))
unfolding set_bytes
set_bytes-zeros pre bs n m h =
    rw
      ((leb_iff (length pre + length bs) (length (pre ++ zeros m))).1
        (omega (arith, h, length-append pre (zeros m), length-zeros m)))
      (ap fulfilled
        (overwrite_at-append pre bs (zeros m) ∙ ap (λ t. pre ++ t) (overwrite-zeros bs n m h)))

encode_self_handle-eq :
    (random : List ℕ) → length random ≡ 32 → encode_self_handle random ≡ fulfilled (1 ∷ random)
unfolding encode_self_handle
encode_self_handle-eq random h =
    set_bytes-zeros (1 ∷ []) random 0 32 (omega (arith, h))
    ∙ ap (λ t. fulfilled (1 ∷ t)) (append-nil random)

module _ (h : Hexes) (wallet address : String) (random : List ℕ) where
  -- What viem promises of an address: it is valid, it has 20 bytes, and they print as the address.
  pub record IsAddress : Type 0 where
    pub checksummed : h.get_address wallet ≡ fulfilled address
    pub has_20_bytes : length (h.hex_to_bytes address) ≡ 20
    pub printed : h.get_address (h.bytes_to_hex (h.hex_to_bytes address)) ≡ fulfilled address

  encode_roster_handle-eq :
      IsAddress
      → length random ≡ 8
      → encode_roster_handle h wallet random ≡ fulfilled (2 ∷ (h.hex_to_bytes address ++ random))
  unfolding encode_roster_handle
  encode_roster_handle-eq a k =
      ap
        (λ m. m >>= λ address.
          set_bytes (h.hex_to_bytes address) 1 (2 ∷ zeros 28) >>= λ out. set_bytes random 21 out)
        a.checksummed
      ∙ ap (λ m. m >>= λ out. set_bytes random 21 out)
          (set_bytes-zeros (2 ∷ []) (h.hex_to_bytes address) 8 28 (omega (arith, a.has_20_bytes)))
      ∙ ap (λ n. set_bytes random n (2 ∷ (h.hex_to_bytes address ++ zeros 8)))
          (omega (arith, a.has_20_bytes))
      ∙ set_bytes-zeros (2 ∷ h.hex_to_bytes address) random 0 8 (omega (arith, k))
      ∙ ap (λ t. fulfilled (2 ∷ (h.hex_to_bytes address ++ t))) (append-nil random)

  decode-roster :
      IsAddress
      → length random ≡ 8
      → decode_user_handle h (2 ∷ (h.hex_to_bytes address ++ random)) ≡ fulfilled (roster address)
  unfolding decode_user_handle
  decode-roster a k =
      rw
        ((==_iff (length (2 ∷ (h.hex_to_bytes address ++ random))) 29).1
          (omega (arith, k, a.has_20_bytes, length-append (h.hex_to_bytes address) random)))
        (ap (λ t. h.get_address (h.bytes_to_hex t) >>= λ w. fulfilled (roster w))
            (ap (λ n. first_bytes n (h.hex_to_bytes address ++ random)) (sym a.has_20_bytes)
              ∙ first_bytes-append (h.hex_to_bytes address) random)
          ∙ ap (λ m. m >>= λ w. fulfilled (roster w)) a.printed)

  decode-self :
      (bytes : List ℕ) → length bytes ≡ 32 → decode_user_handle h (1 ∷ bytes) ≡ fulfilled self
  unfolding decode_user_handle
  decode-self bytes k = rw ((==_iff (length (1 ∷ bytes)) 33).1 (omega (arith, k))) refl

  -- A founding device's handle is written and is read as that; a roster device's handle is written and is
  -- read as the checksummed address of its wallet; where the random bytes have the lengths that are drawn
  -- and viem keeps its promises on the address.
  pub handles_read_back :
      (bytes : List ℕ)
      → length bytes ≡ 32
      → IsAddress
      → length random ≡ 8
      → ((encode_self_handle bytes >>= decode_user_handle h) ≡ fulfilled self)
        × ((encode_roster_handle h wallet random >>= decode_user_handle h)
            ≡ fulfilled (roster address))
  handles_read_back bytes l a k = (
    ap (λ m. m >>= decode_user_handle h) (encode_self_handle-eq bytes l) ∙ decode-self bytes l,
    ap (λ m. m >>= decode_user_handle h) (encode_roster_handle-eq a k) ∙ decode-roster a k,
  )
