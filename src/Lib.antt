-- ===== src/Lib.antt =====
-- CIRRADIO's Python tools: the generators of the development board and the checks around it.
--
-- The program is a set of scripts that run one after the other, and that pass files on. The sheet
-- generators (hardware/cirradio-devboard/gen_zynq.py, gen_ddr3l.py and so on) write schematics;
-- gen_pcb_netlist.py turns them into a board file with numbered nets and net classes;
-- gen_pcb_placement.py gives every part a spot and writes its pads; gen_pcb_planes.py and
-- gen_pcb_routing.py add copper; gen_pcb_drc.py checks the result. Apart from these,
-- tools/board-test tests a board, and fpga/scripts checks and feeds the FPGA design. What a script
-- finds in a file by regular expressions is a parameter here: the instances of a sheet, the nets of
-- the board, its outline. The searches for nets of gen_pcb_drc.py are modelled.
--
-- The files, and the code that each is about:
--   Prelude: texts, dictionaries, sorting and Python's exceptions, which all modules share.
--   Placement/Zone (class Zone), Placement/Footprint (estimate_footprint_size), Placement/Component
--   (is_passive and the dictionary of placements), Placement/Plan (build_placement_plan, a function
--   for each section), Placement/Main (main: collecting, the overflow zone, the order of the
--   output), Placement/Pad and Placement/Pads (get_pad_info): gen_pcb_placement.py.
--   Routing/Trace (segment, route_point_to_point), Routing/Entry (what the generators emit),
--   Routing/Ddr3l, Routing/Lvds, Routing/Rf, Routing/Fallback (power and general routing),
--   Routing/Stitching and Routing/Main (what main collects): gen_pcb_routing.py, a function of the
--   model for each function of the code.
--   Planes: generate_all_zones of gen_pcb_planes.py.
--   Drc: the searches for nets, check_parens and main of gen_pcb_drc.py, on the text of the board;
--   Drc/Emitted: on the lines that segment and via of gen_pcb_routing.py write.
--   Netlist/Classify, Netlist/Numbers, Netlist/Blocks and Netlist/Unique: classify_net, parts of
--   generate_pcb, and main of gen_pcb_netlist.py, with the counters of gen_ddr3l.py and the sheets
--   like it.
--   Sheet: the counters and statements that the sheet generators share (symbol_instance, wire,
--   hier_label, cap, decoupling_group and so on), as lists of steps that `run` makes; Sheet/Print: the
--   text of what they emit, and the check of its parentheses. Sheet/Processor, Sheet/Memory,
--   Sheet/Transceiver, Sheet/Radio, Sheet/Peripherals, Sheet/Connect: the sections of gen_zynq.py,
--   gen_ddr3l.py, gen_ad9361.py, gen_rf.py, gen_peripherals.py and gen_connectors.py; Sheet/Pages
--   puts them side by side. Sheet/Library and Sheet/Libraries: emit_lib_symbols of the six, a
--   definition for each symbol. Sheet/Top: gen_toplevel.py. Sheet/Wiring: which pins a label is wired
--   to, found from the coordinates; the code has no such function. The other files of Sheet hold what
--   is proved of them.
--   Schematic: parse_schematic of gen_pcb_placement.py and gen_pcb_netlist.py.
--   BoardTest/Fhss, BoardTest/Gps, BoardTest/Serial, BoardTest/Flash, BoardTest/Suite:
--   tools/board-test/fhss_onair.py, gps_lock.py, serial_console.py, flash_fpga.py (with board_ssh.py)
--   and run_all.py, with what the board answers as a parameter.
--   Fpga/Regmap, Fpga/Vectors: the comparison of fpga/scripts/check_regmap.py, and
--   compute_channel_index of fpga/scripts/gen_test_vectors.py with the cipher as a parameter.
--   Tests: the theorems at concrete inputs.
--
-- How the model corresponds to the code: lengths are natural numbers of micrometres, where the code
-- has floats of millimetres, so sums and comparisons are exact; Planes keeps the code's
-- millimetres. A point of a route is a numerator over the number of the route's pieces, which the
-- code divides by; `math.hypot` is compared by squares. A text is a list of its characters' codes,
-- and digits and white space are those of ASCII. A set is a list, and a dictionary an association
-- list in the order of insertion. What raises an exception is a result, and a loop that stops on it
-- passes it on. The `while` loops of the stitching run on fuel, more than the limit they count up
-- to, which is enough as each turn adds 2000. UUIDs and printing are left out of the board files;
-- in a sheet, identifiers and the text of a float are a parameter. A library symbol is a list of
-- lines, of which the ones that open a symbol or a unit and those of pins are taken apart; a list
-- of names is given as one text with blanks. The direction of the y axis of a symbol, which KiCad
-- decides, is a parameter of Sheet/Wiring. A coordinate of a sheet is an integer of micrometres. A
-- loop over a literal list is `gather`, and `labels[idx]` pairs the offsets with the labels.
--
-- Not modelled: the text of board files, reading and writing files, where the planes are inserted,
-- the silkscreen, and the board test that loops the radio back. The points of the vias beside an RF
-- trace, which the code computes with square roots, are a parameter.
pub mod Prelude
pub mod Placement
pub mod Routing
pub mod Drc
pub mod Netlist
pub mod BoardTest
pub mod Fpga
pub mod Schematic
pub mod Planes
pub mod Sheet
pub mod Tests
