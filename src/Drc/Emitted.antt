-- ===== src/Drc/Emitted.antt =====
-- The search of gen_pcb_drc.py for the nets of segments and vias, on what `segment` and `via` of
-- gen_pcb_routing.py write. The fields are texts, as the format strings print them.
use cirradio.Prelude.{
  ◌≡◌, refl, ◌∙◌, true, false, Bool, not, ◌&&◌, ◌||◌, ◌==◌, List, [], ◌∷◌, ◌++◌, Text, codes, All,
  arith, ℕ, none,
}
use cirradio.Drc.{
  is_blank, after_text, after_space, net_number, net_before_close, item_net, refs_from,
  extract_net_refs, all_refs,
}

pub data Route : Type 0 where
  segment : (x1 y1 x2 y2 width layer net_num uid : Text) → Route
  via : (x y size drill layer_0 layer_1 net_num uid : Text) → Route

-- The line of the route, in front of what follows it.
unfoldable pub route_line : Route → Text → Text
route_line (segment x1 y1 x2 y2 width layer net_num uid) t =
    codes "  (segment (start "
    ++ (x1
        ++ (codes " "
            ++ (y1
                ++ (codes ") (end "
                    ++ (x2
                        ++ (codes " "
                            ++ (y2
                                ++ (codes ") (width "
                                    ++ (width
                                        ++ (codes ") (layer \""
                                            ++ (layer
                                                ++ (codes "\") (net "
                                                    ++ (net_num
                                                        ++ (codes ") (uuid \""
                                                            ++ (uid
                                                            ++ (codes "\"))\n" ++ t))))))))))))))))
route_line (via x y size drill layer_0 layer_1 net_num uid) t =
    codes "  (via (at "
    ++ (x
        ++ (codes " "
            ++ (y
                ++ (codes ") (size "
                    ++ (size
                        ++ (codes ") (drill "
                            ++ (drill
                                ++ (codes ") (layers \""
                                    ++ (layer_0
                                        ++ (codes "\" \""
                                            ++ (layer_1
                                                ++ (codes "\") (net "
                                                    ++ (net_num
                                                        ++ (codes ") (uuid \""
                                                            ++ (uid
                                                            ++ (codes "\"))\n" ++ t))))))))))))))))

unfoldable pub route_lines : List Route → Text
unfolding route_line
route_lines [] = []
route_lines (r ∷ routes) = route_line r (route_lines routes)

-- A text without parentheses.
unfoldable pub is_plain : Text → Bool
is_plain [] = true
is_plain (c ∷ t) = not (c == b'(' || c == b')') && is_plain t

abbrev pub Plain : Text → Type 0
Plain t = is_plain t ≡ true

-- The fields have no parentheses.
abbrev pub PlainRoute : Route → Type 0
PlainRoute (segment x1 y1 x2 y2 width layer net_num uid) =
    All Plain (x1 ∷ y1 ∷ x2 ∷ y2 ∷ width ∷ layer ∷ net_num ∷ uid ∷ [])
PlainRoute (via x y size drill layer_0 layer_1 net_num uid) =
    All Plain (x ∷ y ∷ size ∷ drill ∷ layer_0 ∷ layer_1 ∷ net_num ∷ uid ∷ [])

net_before_close-Plain : (u t : Text) → Plain u → net_before_close (u ++ t) ≡ net_before_close t
unfolding net_before_close net_number after_space after_text is_plain
net_before_close-Plain [] t p = refl
net_before_close-Plain (c ∷ u) t p = ground (arith, net_before_close-Plain u t, p)

refs_from-Plain :
    (o u t : Text) → Plain u → refs_from (b'(' ∷ o) false (u ++ t) ≡ refs_from (b'(' ∷ o) false t
unfolding refs_from item_net after_space after_text is_plain
refs_from-Plain o [] t p = refl
refs_from-Plain o (c ∷ u) t p = ground (arith, refs_from-Plain o u t, p)

-- Where no match starts, the search goes on behind the character.
refs_from-none :
    (o : Text) (c : ℕ) (t : Text)
    → item_net o (c ∷ t) ≡ none
    → refs_from o false (c ∷ t) ≡ refs_from o false t
unfolding refs_from
refs_from-none o c t h = ground (arith, h)

-- The search finds no match that starts in the text `l`.
abbrev Passed : Text → Text → Type 0
Passed o l = (t : Text) → refs_from (b'(' ∷ o) false (l ++ t) ≡ refs_from (b'(' ∷ o) false t

-- A search, at the texts between the fields of routes.
record PassesItem (o : Text) : Type 0 where
  at_segment :
      (t : Text)
      → net_before_close t ≡ none
      → refs_from (b'(' ∷ o) false (codes "  (segment (start " ++ t) ≡ refs_from (b'(' ∷ o) false t
  at_via :
      (t : Text)
      → net_before_close t ≡ none
      → refs_from (b'(' ∷ o) false (codes "  (via (at " ++ t) ≡ refs_from (b'(' ∷ o) false t
  at_end : Passed o (codes ") (end ")
  at_width : Passed o (codes ") (width ")
  at_layer : Passed o (codes ") (layer \"")
  at_size : Passed o (codes ") (size ")
  at_drill : Passed o (codes ") (drill ")
  at_layers : Passed o (codes ") (layers \"")
  at_net : Passed o (codes "\") (net ")
  at_uuid : Passed o (codes ") (uuid \"")
  at_last : Passed o (codes "\"))\n")

for_segments : PassesItem (codes "segment")
unfolding refs_from item_net net_before_close net_number after_space after_text is_blank
for_segments = record {
  at_segment = λ t h. refs_from-none (codes "(segment") b'(' (codes "segment (start " ++ t) h;
  at_via = λ t h. refl;
  at_end = λ t. refl;
  at_width = λ t. refl;
  at_layer = λ t. refl;
  at_size = λ t. refl;
  at_drill = λ t. refl;
  at_layers = λ t. refl;
  at_net = λ t. refl;
  at_uuid = λ t. refl;
  at_last = λ t. refl;
}

for_vias : PassesItem (codes "via")
unfolding refs_from item_net net_before_close net_number after_space after_text is_blank
for_vias = record {
  at_segment = λ t h. refl;
  at_via = λ t h. refs_from-none (codes "(via") b'(' (codes "via (at " ++ t) h;
  at_end = λ t. refl;
  at_width = λ t. refl;
  at_layer = λ t. refl;
  at_size = λ t. refl;
  at_drill = λ t. refl;
  at_layers = λ t. refl;
  at_net = λ t. refl;
  at_uuid = λ t. refl;
  at_last = λ t. refl;
}

-- Up to the first closing parenthesis of a route there is no net.
net_before_close-pair :
    (x y t : Text)
    → Plain x
    → Plain y
    → net_before_close (x ++ (codes " " ++ (y ++ (b')' ∷ t)))) ≡ none
unfolding net_before_close net_number after_space after_text
net_before_close-pair x y t p q =
    net_before_close-Plain x (codes " " ++ (y ++ (b')' ∷ t))) p
    ∙ net_before_close-Plain y (b')' ∷ t) q

module _ (o : Text) (passes : PassesItem o) where
  refs_from-route_line :
      (r : Route) (t : Text)
      → PlainRoute r
      → refs_from (b'(' ∷ o) false (route_line r t) ≡ refs_from (b'(' ∷ o) false t
  unfolding route_line refs_from item_net after_space after_text
  refs_from-route_line (segment x1 y1 x2 y2 width layer net_num uid) t
        (a, (b, (c, (d, (e, (f, (g, (h, u)))))))) =
      passes.at_segment _ (net_before_close-pair x1 y1 _ a b)
      ∙ refs_from-Plain o x1 _ a
      ∙ refs_from-Plain o y1 _ b
      ∙ passes.at_end _
      ∙ refs_from-Plain o x2 _ c
      ∙ refs_from-Plain o y2 _ d
      ∙ passes.at_width _
      ∙ refs_from-Plain o width _ e
      ∙ passes.at_layer _
      ∙ refs_from-Plain o layer _ f
      ∙ passes.at_net _
      ∙ refs_from-Plain o net_num _ g
      ∙ passes.at_uuid _
      ∙ refs_from-Plain o uid _ h
      ∙ passes.at_last t
  refs_from-route_line (via x y size drill layer_0 layer_1 net_num uid) t
        (a, (b, (c, (d, (e, (f, (g, (h, u)))))))) =
      passes.at_via _ (net_before_close-pair x y _ a b)
      ∙ refs_from-Plain o x _ a
      ∙ refs_from-Plain o y _ b
      ∙ passes.at_size _
      ∙ refs_from-Plain o size _ c
      ∙ passes.at_drill _
      ∙ refs_from-Plain o drill _ d
      ∙ passes.at_layers _
      ∙ refs_from-Plain o layer_0 _ e
      ∙ refs_from-Plain o layer_1 _ f
      ∙ passes.at_net _
      ∙ refs_from-Plain o net_num _ g
      ∙ passes.at_uuid _
      ∙ refs_from-Plain o uid _ h
      ∙ passes.at_last t

  refs_from-route_lines :
      (routes : List Route)
      → All PlainRoute routes
      → refs_from (b'(' ∷ o) false (route_lines routes) ≡ []
  unfolding route_lines refs_from
  refs_from-route_lines [] a = refl
  refs_from-route_lines (r ∷ routes) a =
      refs_from-route_line r (route_lines routes) a.0 ∙ refs_from-route_lines routes a.1

-- In the lines that the routing writes for segments and vias, if their fields have no parentheses,
-- the searches of the check find no net at all, whatever nets the lines name.
pub all_refs-route_lines :
    (routes : List Route) → All PlainRoute routes → all_refs (route_lines routes) ≡ []
unfolding all_refs extract_net_refs
all_refs-route_lines routes a =
    rw
      (
        refs_from-route_lines (codes "segment") for_segments routes a,
        refs_from-route_lines (codes "via") for_vias routes a,
      )
      refl
