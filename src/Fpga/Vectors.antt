-- ===== src/Fpga/Vectors.antt =====
-- fpga/scripts/gen_test_vectors.py: the channel of a hop. The cipher, of the package cryptography,
-- is a parameter.
pub mod Channel
use cirradio.Prelude.{
  ℕ, zero, suc, ◌+◌, ◌*◌, ◌/◌, ◌%◌, ◌^◌, List, [], ◌∷◌, ◌++◌, ltb, ◌==◌, if◌then◌else◌, Result, ok,
  raised, value_error, struct_error, zero_division_error, ◌>>=◌,
}

-- bytes([n])
unfoldable pub byte : ℕ → Result ℕ
byte n = if ltb n 256 then ok n else raised value_error

-- The `n` lowest bytes of a number, the lowest first.
unfoldable pub le_bytes : ℕ → ℕ → List ℕ
le_bytes zero v = []
le_bytes (suc n) v = v % 256 ∷ le_bytes n (v / 256)

-- struct.pack('<I', n)
unfoldable pub pack_u32 : ℕ → Result (List ℕ)
unfolding le_bytes
pack_u32 n = if ltb n (2 ^ 32) then ok (le_bytes 4 n) else raised struct_error

-- bytes([slot, 0, 0, 0]) + struct.pack('<I', frame) + bytes(7) + bytes([attempt])
unfoldable pub plaintext : ℕ → ℕ → ℕ → Result (List ℕ)
unfolding byte pack_u32
plaintext slot frame attempt = byte slot >>= λ s. pack_u32 frame >>= λ f. byte attempt >>= λ a.
    ok ((s ∷ 0 ∷ 0 ∷ 0 ∷ []) ++ (f ++ ((0 ∷ 0 ∷ 0 ∷ 0 ∷ 0 ∷ 0 ∷ 0 ∷ []) ++ (a ∷ []))))

-- struct.unpack('<Q', ct[:8])[0]
unfoldable pub unpack_u64 : List ℕ → Result ℕ
unpack_u64 (a ∷ b ∷ c ∷ d ∷ e ∷ f ∷ g ∷ h ∷ rest) =
    ok (a + 256 * (b + 256 * (c + 256 * (d + 256 * (e + 256 * (f + 256 * (g + 256 * h)))))))
unpack_u64 _ = raised struct_error

module _ (encrypt : List ℕ → List ℕ → Result (List ℕ)) where
  unfoldable pub compute_channel_index : List ℕ → ℕ → ℕ → ℕ → ℕ → Result ℕ
  unfolding plaintext unpack_u64
  compute_channel_index fhek slot frame attempt num_channels = plaintext slot frame attempt >>= λ p.
      encrypt fhek p >>= λ ct. unpack_u64 ct >>= λ raw.
      if num_channels == 0 then raised zero_division_error else ok (raw % num_channels)
