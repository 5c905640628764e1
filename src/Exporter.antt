-- ===== src/Exporter.antt =====
-- crates/crd-exporter/src/main.rs: the program that writes the resource definition to a file.
pub mod Replace
use text.Mathlib.TextBridge.{of_list}
use Prim.Native.String.{[] as []ˢ, ◌∷◌ as ◌∷ˢ◌}
use Prim.Native.Char.{Char, code}
use externalip_manager.Prelude.{
  ℕ, zero, suc, String, Bool, true, false, ◌&&◌, ◌==◌, List, [], ◌∷◌, ◌++◌, length, if◌then◌else◌,
}
use externalip_manager.Prelude.Outcome.{Outcome, done, fail, panic, not_serialized, Result, ok, err}

-- The code that is not of this repository: the text that serde_yaml makes of the definition that
-- kube derives, `PathBuf::join` and `fs::write`.
pub record Files : Type 1 where
  pub World : Type 0
  pub PathBuf : Type 0
  pub crd_yaml : Result String String
  pub join : PathBuf → String → PathBuf
  pub write : PathBuf → String → World → Result String Unit × World

pub data ApiVersion : Type 0 where
  v1alpha1 : ApiVersion

-- `#[default]`
abbrev pub default_api_version : ApiVersion
default_api_version = v1alpha1

pub record Arg (F : Files) : Type 0 where
  pub output_dir : F.PathBuf
  pub api_version : ApiVersion

-- `str::chars`
abbrev pub chars : String → List Char
chars []ˢ = []
chars (c ∷ˢ text) = c ∷ chars text

abbrev pub starts_with : List Char → List Char → Bool
starts_with [] text = true
starts_with (p ∷ pattern) [] = false
starts_with (p ∷ pattern) (c ∷ text) = (code p == code c) && starts_with pattern text

-- `str::replace` with a pattern that is not empty; the number of characters that a match still
-- covers stands in front.
unfoldable pub replace_from : ℕ → Char → List Char → List Char → List Char → List Char
replace_from skip p pattern to [] = []
replace_from (suc skip) p pattern to (c ∷ text) = replace_from skip p pattern to text
replace_from zero p pattern to (c ∷ text) =
    let matched = replace_from (length pattern) p pattern to text in
    let passed = replace_from zero p pattern to text in
    if starts_with (p ∷ pattern) (c ∷ text) then to ++ matched else c ∷ passed

abbrev pub replace : Char → List Char → List Char → List Char → List Char
replace = replace_from 0

-- The pattern and what stands for it.
abbrev pub pattern_head : Char
pattern_head = "a"

abbrev pub pattern_tail : List Char
pattern_tail = chars "dditionalPrinterColumns: []\n    name:"

abbrev pub replacement : List Char
replacement = chars "name:"

module _ (F : Files) where
  abbrev pub written : Result String Unit × F.World → Outcome String Unit × F.World
  written (ok _, w) = (done tt, w)
  written (err e, w) = (fail e, w)

  abbrev pub fixed : String → String
  fixed crd = of_list (replace pattern_head pattern_tail replacement (chars crd))

  -- `write`
  unfoldable pub write : String → F.PathBuf → F.World → Outcome String Unit × F.World
  unfolding replace_from
  write crd dest w = written (F.write dest (fixed crd) w)

  -- `unwrap` of the text.
  abbrev pub export : Result String String → F.PathBuf → F.World → Outcome String Unit × F.World
  export (ok crd) dest w = write crd dest w
  export (err e) dest w = (panic not_serialized, w)

  -- The match on the version.
  abbrev pub exported : ApiVersion → F.PathBuf → F.World → Outcome String Unit × F.World
  exported v1alpha1 dir = export F.crd_yaml (F.join dir "v1alpha1-ClusterExternalIPSource.yaml")

  -- `main`, with its arguments.
  unfoldable pub main : Arg F → F.World → Outcome String Unit × F.World
  unfolding write
  main args = exported args.api_version args.output_dir
