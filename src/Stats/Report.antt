-- ===== src/Stats/Report.antt =====
-- The text of a report.
use mathlib.Core.List.{append-nil, append_assoc}
use rocks_db_wrapper.Base.{
  ℕ, ◌≡◌, refl, sym, ap, ap₂, subst, ◌∙◌, true, some, Option, List, [], ◌∷◌, ◌++◌, replicate, arith,
}
use rocks_db_wrapper.Base.Text.{Text, codes, show_ℤ, pad_left}
use rocks_db_wrapper.Env.{DbEnv}
use rocks_db_wrapper.Report.Setup.{row}
use rocks_db_wrapper.Stats.{
  Floats, Stats, Cout, insert_text, end_line, cells, head_cells, amp_cells, count_cells,
  print_counts, print_amp, print_stats,
}
use rocks_db_wrapper.Stats.Amplification.{print_stats-parts}

-- From `c` to `c'` the text was printed, and the width `w` is pending.
record Prints (text : Text) (w : ℕ) (c c' : Cout) : Type 0 where
  printed : c'.printed ≡ c.printed ++ text
  width : c'.width ≡ w
  fixed : c'.fixed ≡ c.fixed

nothing-Prints : (c : Cout) → Prints [] c.width c c
nothing-Prints c = record { printed = sym (append-nil c.printed); width = refl; fixed = refl }

pad_left-none : (text : Text) → pad_left 0 text ≡ text
unfolding pad_left
pad_left-none text = ap (λ n. replicate n 32 ++ text) {y = 0} (omega arith)

insert_text-Prints :
    (text t : Text) {w : ℕ} (c c' : Cout)
    → Prints t w c c'
    → Prints (t ++ pad_left w text) 0 c (insert_text text c')
unfolding insert_text
insert_text-Prints text t {w} c c' p = record {
  printed =
      ap₂ (λ x n. x ++ pad_left n text) p.printed p.width
      ∙ append_assoc c.printed t (pad_left w text);
  width = refl;
  fixed = p.fixed;
}

unpadded-Prints :
    (text t : Text) (c c' : Cout) → Prints t 0 c c' → Prints (t ++ text) 0 c (insert_text text c')
unpadded-Prints text t c c' p =
    subst (λ x. Prints (t ++ x) 0 c (insert_text text c')) (pad_left-none text)
      (insert_text-Prints text t c c' p)

end_line-Prints :
    (t : Text) {w : ℕ} (c c' : Cout) → Prints t w c c' → Prints (t ++ 10 ∷ []) w c (end_line c')
end_line-Prints t c c' p = record {
  printed = ap (λ x. x ++ 10 ∷ []) p.printed ∙ append_assoc c.printed t (10 ∷ []);
  width = p.width;
  fixed = p.fixed;
}

width-Prints :
    (w : ℕ) {v : ℕ} (t : Text) (c c' : Cout)
    → Prints t v c c'
    → Prints t w c (record c' { width = w })
width-Prints w t c c' p = record { printed = p.printed; width = refl; fixed = p.fixed }

cells-Prints :
    (w : ℕ) (text : Text) (rest : List (ℕ × Text)) (t : Text) {v : ℕ} (c c' : Cout)
    → Prints t v c c'
    → Prints (t ++ row ((w, text) ∷ rest)) 0 c (cells ((w, text) ∷ rest) c')
unfolding cells
cells-Prints w text [] t c c' p =
    subst (λ x. Prints (t ++ x) 0 c (cells ((w, text) ∷ []) c'))
      (sym (append-nil (pad_left w text))) (insert_text-Prints text t c _ (width-Prints w t c c' p))
cells-Prints w text ((w', text') ∷ rest) t c c' p =
    subst (λ x. Prints x 0 c (cells ((w, text) ∷ (w', text') ∷ rest) c'))
      (append_assoc t (pad_left w text) (row ((w', text') ∷ rest)))
      (cells-Prints w' text' rest (t ++ pad_left w text) c _
        (insert_text-Prints text t c _ (width-Prints w t c c' p)))

-- A table of the counts, the number of files, and a table with the space amplification.
abbrev pub report : {f : Floats} → Stats f → Text → Text
report s amp =
    row head_cells
    ++ 10 ∷ []
    ++ row (count_cells s)
    ++ 10 ∷ []
    ++ codes "files in tree = "
    ++ show_ℤ s.files_in_tree
    ++ 10 ∷ []
    ++ row amp_cells
    ++ 10 ∷ []
    ++ pad_left 9 amp
    ++ 10 ∷ []

counts : {f : Floats} → Stats f → Text
counts s =
    row head_cells
    ++ 10 ∷ []
    ++ row (count_cells s)
    ++ 10 ∷ []
    ++ codes "files in tree = "
    ++ show_ℤ s.files_in_tree
    ++ 10 ∷ []

print_counts-Prints :
    {f : Floats} (s : Stats f) (c : Cout) → Prints (counts s) 0 c (print_counts s c)
unfolding counts
print_counts-Prints s c = end_line-Prints _ c _ (
    unpadded-Prints (show_ℤ s.files_in_tree) _ c _ (
      unpadded-Prints (codes "files in tree = ") _ c _ (
        end_line-Prints _ c _ (
          cells-Prints 12 _ _ _ c _ (
            unpadded-Prints (codes "\n") (row head_cells) c _
              (cells-Prints 9 _ _ [] c c (nothing-Prints c)))))))

print_amp-printed :
    {f : Floats} (s s' : Stats f) (c0 c : Cout)
    → Prints (counts s) 0 c0 c
    → (print_amp s' c).printed ≡ c0.printed ++ report s (f.show c0.fixed s'.space_amp)
unfolding counts
print_amp-printed {f} s s' c0 c p =
    let headed = unpadded-Prints (codes "\n") _ c0 _ (cells-Prints 9 _ _ _ c0 c p) in
    let amp =
      insert_text-Prints (f.show (insert_text (codes "\n") (cells amp_cells c)).fixed s'.space_amp)
        _ c0 _ (width-Prints 9 _ c0 _ headed) in
    (end_line-Prints _ c0 _ amp).printed
    ∙ ap (λ fixed. c0.printed ++ report s (f.show fixed s'.space_amp)) headed.fixed

-- A report prints the two tables, whatever width was pending. The space amplification stands in the
-- notation that the stream had before, and the stream is left in fixed notation with a width of 19
-- pending for whatever is printed next.
pub print_stats-report :
    {f : Floats} (instance_ : Option DbEnv) (s : Stats f) (c : Cout) {left : Option DbEnv}
    {s' : Stats f} {c' : Cout}
    → print_stats instance_ s c ≡ some (left, s', c')
    → (c'.printed ≡ c.printed ++ report s (f.show c.fixed s'.space_amp))
      × (c'.fixed ≡ true)
      × (c'.width ≡ 19)
print_stats-report instance_ s c {s' = s'} e =
    let (_, _, out) = print_stats-parts instance_ s c e in
    (
      ap (λ (x : Cout). x.printed) out
          ∙ print_amp-printed s s' c (print_counts s c) (print_counts-Prints s c),
      ap (λ (x : Cout). x.fixed) out,
      ap (λ (x : Cout). x.width) out,
    )
