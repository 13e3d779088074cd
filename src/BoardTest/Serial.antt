-- ===== src/BoardTest/Serial.antt =====
-- tools/board-test/serial_console.py: reading the serial port while the board boots.
pub mod Boot
use cirradio.Prelude.{
  Bool, true, false, ◌||◌, ◌&&◌, List, [], ◌∷◌, ◌++◌, if◌then◌else◌, Text, codes, contains,
}

abbrev pub uboot_prompt : Text
uboot_prompt = codes "ZynqMP>"

abbrev pub linux_prompt : Text
linux_prompt = codes "login:"

-- The dictionary `result` and the buffer, as the loop of `run_live` leaves them.
pub record Console : Type 0 where
  pub uboot_seen : Bool
  pub linux_seen : Bool
  pub buf : Text

-- The loop of `run_live`, over the chunks that arrive ahead of the deadline.
unfoldable pub listen : Console → List Text → Console
listen c [] = c
listen c (chunk ∷ chunks) =
    let buf = c.buf ++ chunk in
    let uboot = c.uboot_seen || contains uboot_prompt buf in
    let going =
      listen (record { uboot_seen = uboot; linux_seen = c.linux_seen; buf = buf }) chunks in
    if contains linux_prompt buf
    then record { uboot_seen = uboot; linux_seen = true; buf = buf }
    else going

-- `run_live` where the port raises no exception: what it has seen, and whether it passed.
unfoldable pub run_live : List Text → Console × Bool
unfolding listen
run_live chunks =
    let c = listen (record { uboot_seen = false; linux_seen = false; buf = [] }) chunks in
    (c, c.uboot_seen && c.linux_seen)
