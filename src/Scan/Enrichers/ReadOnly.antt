-- ===== src/Scan/Enrichers/ReadOnly.antt =====
-- The enrichers change nothing that running a program leaves alone.
use anti_entropator.Prelude.{◌≡◌, refl, ◌∙◌, Option, none, some, List, Text}
use anti_entropator.Scan.Enrichers.{
  Tools, waited, run_tool, exiftool_datetime, ffprobe_datetime, pdfinfo_title,
}
use anti_entropator.Domain.FileInfo.{FilePath}

module _ {World V : Type 0} (view : World → V) (tools : Tools World)
    (spawn_keeps : (program : Text) (args : List Text) (w : World)
      → view (tools.spawn program args w).1 ≡ view w)
    (wait_keeps : (child : tools.Child) (w : World) → view (tools.wait child w).1 ≡ view w) where
  waited_keeps : (o : Option tools.Child) (w : World) → view (waited tools o w).1 ≡ view w
  waited_keeps none w = refl
  waited_keeps (some child) w = wait_keeps child w

  run_tool_keeps :
      (program : Text) (args : List Text) (w : World)
      → view (run_tool tools program args w).1 ≡ view w
  unfolding run_tool
  run_tool_keeps program args w =
      waited_keeps (tools.spawn program args w).0 (tools.spawn program args w).1
      ∙ spawn_keeps program args w

  pub exiftool_datetime_keeps :
      (path : FilePath) (w : World) → view (exiftool_datetime tools path w).1 ≡ view w
  unfolding exiftool_datetime
  exiftool_datetime_keeps path w = run_tool_keeps _ _ w

  pub ffprobe_datetime_keeps :
      (path : FilePath) (w : World) → view (ffprobe_datetime tools path w).1 ≡ view w
  unfolding ffprobe_datetime
  ffprobe_datetime_keeps path w = run_tool_keeps _ _ w

  pub pdfinfo_title_keeps :
      (path : FilePath) (w : World) → view (pdfinfo_title tools path w).1 ≡ view w
  unfolding pdfinfo_title
  pdfinfo_title_keeps path w = run_tool_keeps _ _ w
