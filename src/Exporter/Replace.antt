-- ===== src/Exporter/Replace.antt =====
-- The text that the exporter writes (crates/crd-exporter/src/main.rs).
use text.Mathlib.TextBridge.{of_list}
use mathlib.Core.List.{append-nil}
use Prim.Native.Char.{Char}
use externalip_manager.Prelude.{
  ◌≡◌, refl, ◌∙◌, ap, sym, String, true, false, List, [], ◌∷◌, ◌++◌, length, arith, if◌then◌else◌,
}
use externalip_manager.Prelude.Outcome.{ok}
use externalip_manager.Exporter.{
  Files, Arg, ApiVersion, v1alpha1, chars, starts_with, replace_from, replace, pattern_head,
  pattern_tail, replacement, written, write, export, exported, main,
}

by_version :
    (F : Files) (v : ApiVersion) (dir : F.PathBuf) (w : F.World)
    → exported F v dir w
      ≡ export F F.crd_yaml (F.join dir "v1alpha1-ClusterExternalIPSource.yaml") w
by_version F v1alpha1 dir w = refl

-- No match of the pattern begins in the first text, with the second text behind it.
abbrev pub NoMatch : List Char → List Char → List Char → Type 0
NoMatch pattern [] rest = Unit
NoMatch pattern (c ∷ text) rest =
    (starts_with pattern (c ∷ text ++ rest) ≡ false) × NoMatch pattern text rest

-- A text and further ones, with a separator between each and the next.
abbrev pub spread : List Char → List Char → List (List Char) → List Char
spread separator text [] = text
spread separator text (next ∷ more) = text ++ (separator ++ spread separator next more)

-- With the pattern as the separator, matches begin at the separators only.
abbrev pub MatchesBetween : List Char → List Char → List (List Char) → Type 0
MatchesBetween pattern text [] = NoMatch pattern text []
MatchesBetween pattern text (next ∷ more) =
    NoMatch pattern text (pattern ++ spread pattern next more) × MatchesBetween pattern next more

starts_with-append : (pattern rest : List Char) → starts_with pattern (pattern ++ rest) ≡ true
starts_with-append [] rest = refl
starts_with-append (p ∷ pattern) rest = ground (arith, starts_with-append pattern rest)

module _ (p : Char) (pattern to : List Char) where
  skipped :
      (text rest : List Char)
      → replace_from (length text) p pattern to (text ++ rest) ≡ replace p pattern to rest
  unfolding replace_from
  skipped [] rest = refl
  skipped (c ∷ text) rest = skipped text rest

  passed :
      (text rest : List Char)
      → NoMatch (p ∷ pattern) text rest
      → replace p pattern to (text ++ rest) ≡ text ++ replace p pattern to rest
  unfolding replace_from
  passed [] rest h = refl
  passed (c ∷ text) rest h =
      ap
        (λ b.
          if b
          then to ++ replace_from (length pattern) p pattern to (text ++ rest)
          else c ∷ replace p pattern to (text ++ rest))
        h.0
      ∙ ap (λ x. c ∷ x) (passed text rest h.1)

  matched :
      (rest : List Char)
      → replace p pattern to (p ∷ pattern ++ rest) ≡ to ++ replace p pattern to rest
  unfolding replace_from
  matched rest =
      ap
        (λ b.
          if b
          then to ++ replace_from (length pattern) p pattern to (pattern ++ rest)
          else p ∷ replace p pattern to (pattern ++ rest))
        (starts_with-append (p ∷ pattern) rest)
      ∙ ap (λ x. to ++ x) (skipped pattern rest)

  -- Every separator is rewritten, and nothing else.
  replace-spread :
      (text : List Char) (more : List (List Char))
      → MatchesBetween (p ∷ pattern) text more
      → replace p pattern to (spread (p ∷ pattern) text more) ≡ spread to text more
  unfolding replace_from
  replace-spread text [] h =
      ap (replace p pattern to) (sym (append-nil text)) ∙ passed text [] h ∙ append-nil text
  replace-spread text (next ∷ more) h =
      passed text (p ∷ pattern ++ spread (p ∷ pattern) next more) h.0
      ∙ ap (λ x. text ++ x)
          (matched (spread (p ∷ pattern) next more)
            ∙ ap (λ x. to ++ x) (replace-spread next more h.1))

-- An entry of empty printer columns, and the key of the entry behind it.
abbrev pub empty_columns : List Char
empty_columns = chars "additionalPrinterColumns: []\n    name:"

-- If the definition has a text, and in it "additionalPrinterColumns: []", a line break, four spaces
-- and "name:" stand between these pieces and begin nowhere else: `main` writes one file,
-- v1alpha1-ClusterExternalIPSource.yaml in the directory it was given, whose text is the pieces
-- with "name:" between them, and ends as the writing ends.
pub main-replaced :
    (F : Files) (args : Arg F) (text : String) (piece : List Char) (pieces : List (List Char))
    (w : F.World)
    → F.crd_yaml ≡ ok text
    → chars text ≡ spread empty_columns piece pieces
    → MatchesBetween empty_columns piece pieces
    → main F args w
      ≡ written F (
          F.write
            (F.join args.output_dir "v1alpha1-ClusterExternalIPSource.yaml")
            (of_list (spread (chars "name:") piece pieces))
            w)
unfolding main write
main-replaced F args text piece pieces w made stands h =
    by_version F args.api_version args.output_dir w
    ∙ ap (λ r. export F r (F.join args.output_dir "v1alpha1-ClusterExternalIPSource.yaml") w) made
    ∙ ap
        (λ cs.
          written F (
            F.write (F.join args.output_dir "v1alpha1-ClusterExternalIPSource.yaml") (of_list cs)
              w))
        (ap (replace pattern_head pattern_tail replacement) stands
          ∙ replace-spread pattern_head pattern_tail replacement piece pieces h)
