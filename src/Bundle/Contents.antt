-- ===== src/Bundle/Contents.antt =====
-- What a bundle holds of the two tracks.
use dbwarden_harness.Base.{String, some, [], ◌∷◌, ◌++◌, ◌≡◌, ◌≢◌, ◌∙◌, refl, text_ne, inl, inr}
use dbwarden_harness.Disk.{FilePath, Disk, read, write}
use dbwarden_harness.Disk.Files.{
  read-write_same, read-write_other, file_in, file_in-ne, file_in-shallow,
}
use dbwarden_harness.Comparator.{ComparisonResult}
use dbwarden_harness.Tracks.{TrackResult}
use dbwarden_harness.Workspace.{Workspace}
use dbwarden_harness.Bundle.{
  Evidence, write_track_a, write_track_b, write_comparator, write_classification,
  write_reproduction_script, write_manifest, write_bundle,
}

module _ (evidence : Evidence) (dir : FilePath) where
  -- Neither a file of another folder nor one of another name changes it.
  other_folder :
      (f n g m content : String) (d : Disk)
      → f ≢ g
      → read (file_in dir f n) (write (file_in dir g m) content d) ≡ read (file_in dir f n) d
  other_folder f n g m content d h = read-write_other _ _ content d (file_in-ne dir f n g m (inl h))

  other_name :
      (f n g m content : String) (d : Disk)
      → n ≢ m
      → read (file_in dir f n) (write (file_in dir g m) content d) ≡ read (file_in dir f n) d
  other_name f n g m content d h = read-write_other _ _ content d (file_in-ne dir f n g m (inr h))

  shallow :
      (f n m content : String) (d : Disk)
      → read (file_in dir f n) (write (dir ++ (m ∷ [])) content d) ≡ read (file_in dir f n) d
  shallow f n m content d = read-write_other _ _ content d (file_in-shallow dir f n m)

  -- The files after the comparator's are at other places than those of the tracks and the comparator.
  ending :
      (f n class : String) (w : Workspace) (a : TrackResult) (c : ComparisonResult) (d : Disk)
      → f ≢ "reproduction"
      → read (file_in dir f n) (
          write_manifest evidence dir (
            write_reproduction_script evidence
              (dir ++ ("reproduction" ∷ []))
              w
              (write_classification evidence dir class a.plan c d)))
        ≡ read (file_in dir f n) d
  unfolding write_manifest write_reproduction_script write_classification
  ending f n class w a c d h =
      shallow f n "manifest.json" _ _
      ∙ other_folder f n "reproduction" "reproduce.sh" _ _ h
      ∙ shallow f n "classification.json" _ d

  comparing :
      (f n : String) (c : ComparisonResult) (d : Disk)
      → f ≢ "comparator"
      → read (file_in dir f n) (write_comparator evidence (dir ++ ("comparator" ∷ [])) c d)
        ≡ read (file_in dir f n) d
  unfolding write_comparator
  comparing f n c d h =
      other_folder f n "comparator" "identical_before_mutation.txt" _ _ h
      ∙ other_folder f n "comparator" "diff_summary.json" _ _ h
      ∙ other_folder f n "comparator" "diff.patch" c.diff d h

  -- A bundle has the dumps of both tracks and their difference.
  pub write_bundle-read :
      (root : FilePath) (w : Workspace) (base mutated : String) (a b : TrackResult)
      (c : ComparisonResult) (mode class : String) (d : Disk)
      → let d' = write_bundle evidence dir root w base mutated a b c mode class d in
        (read (file_in dir "track_a" "schema_dump.sql") d' ≡ some a.schema_dump)
        × (read (file_in dir "track_b" "schema_dump.sql") d' ≡ some b.schema_dump)
        × (read (file_in dir "comparator" "diff.patch") d' ≡ some c.diff)
  unfolding write_bundle write_track_a write_track_b write_comparator
  write_bundle-read root w base mutated a b c mode class d = (
    ending "track_a" "schema_dump.sql" class w a c _ (text_ne "track_a" "reproduction" refl)
        ∙ comparing "track_a" "schema_dump.sql" c _ (text_ne "track_a" "comparator" refl)
        ∙ other_folder "track_a" "schema_dump.sql" "track_b" "reference_mode.txt" _ _
            (text_ne "track_a" "track_b" refl)
        ∙ other_folder "track_a" "schema_dump.sql" "track_b" "schema_dump.sql" _ _
            (text_ne "track_a" "track_b" refl)
        ∙ other_name "track_a" "schema_dump.sql" "track_a" "container_logs.log" _ _
            (text_ne "schema_dump.sql" "container_logs.log" refl)
        ∙ read-write_same _ a.schema_dump _,
    ending "track_b" "schema_dump.sql" class w a c _ (text_ne "track_b" "reproduction" refl)
        ∙ comparing "track_b" "schema_dump.sql" c _ (text_ne "track_b" "comparator" refl)
        ∙ other_name "track_b" "schema_dump.sql" "track_b" "reference_mode.txt" _ _
            (text_ne "schema_dump.sql" "reference_mode.txt" refl)
        ∙ read-write_same _ b.schema_dump _,
    ending "comparator" "diff.patch" class w a c _ (text_ne "comparator" "reproduction" refl)
        ∙ other_name "comparator" "diff.patch" "comparator" "identical_before_mutation.txt" _ _
            (text_ne "diff.patch" "identical_before_mutation.txt" refl)
        ∙ other_name "comparator" "diff.patch" "comparator" "diff_summary.json" _ _
            (text_ne "diff.patch" "diff_summary.json" refl)
        ∙ read-write_same _ c.diff _,
  )
