-- ===== src/BoardTest/Serial/Boot.antt =====
-- When the boot passes.
use cirradio.Prelude.{
  ◌≡◌, ◌↔◌, true, false, ◌||◌, List, [], ◌∷◌, ◌++◌, Text, contains, starts_with, arith,
}
use cirradio.BoardTest.Serial.{uboot_prompt, linux_prompt, Console, listen, run_live}

starts_with_longer : (p s t : Text) → starts_with p s ≡ true → starts_with p (s ++ t) ≡ true
unfolding starts_with
starts_with_longer [] s t h = ground arith
starts_with_longer (x ∷ p) [] t h = absurd (ground arith)
starts_with_longer (x ∷ p) (y ∷ s) t h = ground (arith, starts_with_longer p s t)

contains_longer : (p s t : Text) → contains p s ≡ true → contains p (s ++ t) ≡ true
unfolding contains
contains_longer p [] [] h = h
contains_longer p [] (y ∷ t) h = ground (arith, starts_with_longer p [] (y ∷ t))
contains_longer p (y ∷ s) t h =
    ground (arith, contains_longer p s t, starts_with_longer p (y ∷ s) t)

-- The flags tell what the buffer contains.
abbrev IsTold : Console → Type 0
IsTold c =
    (c.uboot_seen ≡ contains uboot_prompt c.buf) × (c.linux_seen ≡ contains linux_prompt c.buf)

listen-IsTold :
    (c : Console) (chunks : List Text)
    → c.uboot_seen ≡ contains uboot_prompt c.buf
    → contains linux_prompt c.buf ≡ false
    → c.linux_seen ≡ false
    → IsTold (listen c chunks)
unfolding listen
listen-IsTold c [] u l f = ground arith
listen-IsTold c (chunk ∷ chunks) u l f = ground (
  arith,
  contains_longer uboot_prompt c.buf chunk,
  listen-IsTold
      (record {
        uboot_seen = c.uboot_seen || contains uboot_prompt (c.buf ++ chunk);
        linux_seen = c.linux_seen;
        buf = c.buf ++ chunk;
      })
      chunks,
)

-- A run passes exactly when the text that the board has sent when it stops contains both prompts.
run_live_iff :
    (chunks : List Text)
    → ((run_live chunks).1 ≡ true) ↔ (
        (contains uboot_prompt (run_live chunks).0.buf ≡ true)
        × (contains linux_prompt (run_live chunks).0.buf ≡ true))
unfolding run_live contains
run_live_iff chunks =
    ground
      (arith, listen-IsTold (record { uboot_seen = false; linux_seen = false; buf = [] }) chunks)
