-- ===== src/Tests/OfExporter.antt =====
-- The exporter's theorem at a concrete input.
use externalip_manager.Prelude.{◌≡◌, refl, String, List, [], ◌∷◌}
use externalip_manager.Prelude.Outcome.{ok}
use externalip_manager.Exporter
use externalip_manager.Exporter.{Files, Arg, v1alpha1, written, chars, replacement}
use externalip_manager.Exporter.Replace.{main-replaced}

-- The files that were written, with their texts, and paths as texts.
abbrev disk : Files
disk = record {
  World = List (String × String);
  PathBuf = String;
  crd_yaml = ok "- additionalPrinterColumns: []\n    name: v1alpha1\n";
  join = λ dir file. file;
  write = λ path text w. (ok tt, (path, text) ∷ w);
}

abbrev args : Arg disk
args = record { output_dir = "out"; api_version = v1alpha1 }

main-replaced_example :
    Exporter.main disk args []
    ≡ written disk (disk.write "v1alpha1-ClusterExternalIPSource.yaml" "- name: v1alpha1\n" [])
main-replaced_example =
    main-replaced disk args "- additionalPrinterColumns: []\n    name: v1alpha1\n" (chars "- ")
      (chars " v1alpha1\n" ∷ []) [] refl refl
      (
        (refl, (refl, tt)),
        (refl, (refl, (refl, (refl, (refl, (refl, (refl, (refl, (refl, (refl, tt)))))))))),
      )
