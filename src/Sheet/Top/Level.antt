-- ===== src/Sheet/Top/Level.antt =====
-- hardware/cirradio-devboard/gen_toplevel.py: the parentheses of the text, and the sheets that it
-- refers to.
use cirradio.Prelude.{
  ℕ, suc, ◌≡◌, refl, ◌∙◌, some, List, [], ◌∷◌, ◌++◌, Text, text_eq, All, true, count,
}
use cirradio.Sheet.Checks.{every_item, every_item-All}
use cirradio.Sheet.Print.{Printer, format, heading_lines, balance_status}
use cirradio.Sheet.Print.Balance.{
  depth_after, rise, IsPlainPrinter, depth_after-format, depth_after-append, level-Balanced,
  balance_status-Balanced, rise-heading_lines,
}
use cirradio.Sheet.Level.{level_pieces, level_pieces-All}
use cirradio.Sheet.Pages.{
  Page, gen_zynq, gen_ddr3l, gen_ad9361, gen_rf, gen_peripherals, gen_connectors,
}
use cirradio.Sheet.Top.{
  TopItem, sheet_ref, text_note, arrow_line, empty_line, top_lines, top_heading, top_items,
  print_top, no_symbols, instances, top_text, page_file,
}

rise-top_lines : (e : TopItem) (d : ℕ) → rise d (top_lines e) ≡ some d
unfolding rise top_lines
rise-top_lines (sheet_ref name filename x y w h) d = refl
rise-top_lines (text_note txt x y size) d = refl
rise-top_lines (arrow_line x1 y1 x2 y2) d = refl
rise-top_lines empty_line d = refl

module _ (p : Printer) (plain : IsPlainPrinter p) where
  depth_after-print_top :
      (n : ℕ) (entries : List TopItem) (d : ℕ)
      → All (λ e. level_pieces (top_lines e) ≡ true) entries
      → depth_after d (print_top p n entries) ≡ some d
  unfolding print_top depth_after
  depth_after-print_top n [] d a = refl
  depth_after-print_top n (e ∷ entries) d a =
      depth_after-append (format p n (top_lines e)) (print_top p (suc n) entries) d d (
        depth_after-format p plain n (top_lines e) d d (level_pieces-All (top_lines e) a.0)
          (rise-top_lines e d))
      ∙ depth_after-print_top (suc n) entries d a.1

top-level : every_item (λ e. level_pieces (top_lines e)) top_items ≡ true
unfolding every_item level_pieces top_lines top_items
top-level = refl

heading-level : level_pieces (heading_lines top_heading) ≡ true
unfolding level_pieces heading_lines
heading-level = refl

-- Where numbers and identifiers are written with balanced parentheses, the check of the parentheses
-- passes on the whole text of the top level, so it is written.
pub balance_status-top : (p : Printer) → IsPlainPrinter p → balance_status (top_text p) ≡ 0
unfolding top_text depth_after
balance_status-top p plain = balance_status-Balanced (
    level-Balanced (
      depth_after-append (format p 0 (heading_lines top_heading))
        (no_symbols ++ (print_top p 1 top_items ++ instances)) 0 1
        (depth_after-format p plain 0 (heading_lines top_heading) 0 1
          (level_pieces-All (heading_lines top_heading) heading-level)
          (rise-heading_lines top_heading 0))
      ∙ depth_after-append no_symbols (print_top p 1 top_items ++ instances) 1 1 refl
      ∙ depth_after-append (print_top p 1 top_items) instances 1 1 (
          depth_after-print_top p plain 1 top_items 1
            (every_item-All (λ e. level_pieces (top_lines e)) top_items top-level))))

-- The files of the sheets that the top level refers to.
unfoldable pub files : List TopItem → List Text
files [] = []
files (sheet_ref name filename x y w h ∷ entries) = filename ∷ files entries
files (_ ∷ entries) = files entries

-- The top level refers once to the file that each of the generators writes.
pub count-files : (page : Page) → count (page_file page) (files top_items) ≡ 1
unfolding count text_eq files top_items
count-files gen_zynq = refl
count-files gen_ddr3l = refl
count-files gen_ad9361 = refl
count-files gen_rf = refl
count-files gen_peripherals = refl
count-files gen_connectors = refl
