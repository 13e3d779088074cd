-- ===== src/Netlist/Blocks.antt =====
-- hardware/cirradio-devboard/gen_pcb_netlist.py: the loop of `generate_pcb` that takes the net class
-- blocks out of the lines emitted so far.
pub mod Removed
use cirradio.Prelude.{
  ℕ, Bool, true, false, ◌||◌, List, [], ◌∷◌, ◌++◌, ◌==◌, if◌then◌else◌, Text, codes, text_eq,
  contains,
}

-- Python's white space among the ASCII characters
is_space : ℕ → Bool
is_space c = c == b' ' || c == b'\n' || c == b'\t' || c == b'\r' || c == 11 || c == 12

lstrip : Text → Text
lstrip [] = []
lstrip (c ∷ t) = if is_space c then lstrip t else c ∷ t

all_space : Text → Bool
all_space [] = true
all_space (c ∷ t) = elim (is_space c) [ true ↦ all_space t | false ↦ false ]

rstrip : Text → Text
rstrip [] = []
rstrip (c ∷ t) = if all_space (c ∷ t) then [] else c ∷ rstrip t

-- line.strip()
unfoldable pub strip : Text → Text
unfolding lstrip rstrip all_space is_space
strip line = rstrip (lstrip line)

-- '(net_class "' in line
unfoldable pub opens_class : Text → Bool
opens_class line = contains (codes "(net_class \"") line

-- line.strip() == ")"
unfoldable pub closes_block : Text → Bool
unfolding strip
closes_block line = text_eq (strip line) (codes ")")

-- `new_lines`; the flag is `skip`
unfoldable pub without_classes : Bool → List Text → List Text
without_classes skip [] = []
without_classes skip (line ∷ lines) =
    let skipped = without_classes true lines in
    let closed = without_classes false lines in
    let kept = line ∷ without_classes false lines in
    if opens_class line
    then skipped
    else if skip
    then (if closes_block line then closed else skipped)
    else kept
