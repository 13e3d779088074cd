-- ===== src/Fpga/Vectors/Channel.antt =====
-- The plaintexts of hops, and the range of channels.
use cirradio.Prelude.{
  ℕ, ◌<◌, ◌^◌, ◌≡◌, refl, List, ◌∷◌, length, ltb, ◌==◌, ◌%◌, true, false, Result, ok, arith,
}
use cirradio.Fpga.Vectors.{byte, le_bytes, pack_u32, plaintext, unpack_u64, compute_channel_index}

-- Two hops that have the same plaintext are the same hop: slot, frame and attempt are the same.
pub plaintext-injective :
    (s f a s' f' a' : ℕ) {p : List ℕ}
    → plaintext s f a ≡ ok p
    → plaintext s' f' a' ≡ ok p
    → (s ≡ s') × (f ≡ f') × (a ≡ a')
unfolding plaintext byte pack_u32 le_bytes
plaintext-injective s f a s' f' a' h k = ground arith

plaintext-ok :
    (slot frame attempt : ℕ)
    → slot < 256
    → frame < 2 ^ 32
    → attempt < 256
    → (p : List ℕ) × (plaintext slot frame attempt ≡ ok p) × (length p ≡ 16)
unfolding plaintext byte pack_u32 le_bytes
plaintext-ok slot frame attempt hs hf ha =
    let s : ltb slot 256 ≡ true = ground arith in
    let f : ltb frame 4294967296 ≡ true = ground arith in
    let a : ltb attempt 256 ≡ true = ground arith in rw (s, f, a) (_, refl, refl)

unpack_u64-ok : (ct : List ℕ) → length ct ≡ 16 → (raw : ℕ) × (unpack_u64 ct ≡ ok raw)
unfolding unpack_u64
unpack_u64-ok (a ∷ b ∷ c ∷ d ∷ e ∷ f ∷ g ∷ h ∷ rest) l = (_, refl)
unpack_u64-ok _ l = absurd (omega arith)

module _ (encrypt : List ℕ → List ℕ → Result (List ℕ)) (fhek : List ℕ) where
  -- Where the key makes the cipher turn 16 bytes into 16 bytes, every slot and attempt below 256 and
  -- every frame of 32 bits has a channel, and it is below the number of channels.
  pub compute_channel_index-lt :
      ((p : List ℕ) → length p ≡ 16 → (ct : List ℕ) × (encrypt fhek p ≡ ok ct) × (length ct ≡ 16))
      → (slot frame attempt num_channels : ℕ) → slot < 256
      → frame < 2 ^ 32
      → attempt < 256
      → 0 < num_channels
      → (ch : ℕ) × (compute_channel_index encrypt fhek slot frame attempt num_channels ≡ ok ch)
        × (ch < num_channels)
  unfolding compute_channel_index
  compute_channel_index-lt cipher slot frame attempt num_channels hs hf ha hn =
      let (p, plain, long) = plaintext-ok slot frame attempt hs hf ha in
      let (ct, encrypted, full) = cipher p long in
      let (raw, unpacked) = unpack_u64-ok ct full in
      let some_channels : (num_channels == 0) ≡ false = ground arith in
      rw (plain, encrypted, unpacked, some_channels) (raw % num_channels, refl, omega arith)
