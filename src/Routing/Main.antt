-- ===== src/Routing/Main.antt =====
-- hardware/cirradio-devboard/gen_pcb_routing.py: the entries that `main` collects, but for those of
-- the silkscreen, which holds no copper.
pub mod Declared
use cirradio.Prelude.{ℕ, Bool, List, [], ◌∷◌, ◌++◌, Text, codes}
use cirradio.Routing.Trace.{Point}
use cirradio.Routing.Entry.{Entry, comment, trace, via, Nets}
use cirradio.Routing.Ddr3l.{gen_ddr3l_routing}
use cirradio.Routing.Lvds.{gen_lvds_routing}
use cirradio.Routing.Rf.{gen_rf_routing}
use cirradio.Routing.Fallback.{gen_power_routing, gen_general_io_routing}
use cirradio.Routing.Stitching.{gen_perimeter_via_stitching}

-- `all_entries`
unfoldable pub all_entries : (Point → Point → ℕ → Bool → Point) → Nets → List Entry
unfolding gen_rf_routing
all_entries beside nets =
    comment (codes "\n  ; ========== ROUTING AND VIA STITCHING ==========")
    ∷ (gen_ddr3l_routing nets
        ++ (gen_lvds_routing nets
            ++ (gen_rf_routing beside nets
                ++ (gen_power_routing nets
                    ++ (gen_general_io_routing nets ++ gen_perimeter_via_stitching nets)))))
