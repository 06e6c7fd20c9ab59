-- ===== src/Serve/Deferred.antt =====
-- `_run_deferred` of coordinator.py: a failed write of one table does not cost another.
use donut_server.Prelude.{
  ◌<◌, ◌≡◌, refl, ◌∙◌, none, some, [], ◌∷◌, ◌++◌, arith, length, lookup, length-append, inl, inr,
  Option-cases,
}
use donut_server.Bytes.{Bytes, Name, name_eq}
use donut_server.Exec.{ok, Outcome-cases}
use donut_server.Coordinator.{Library}
use donut_server.Serve.{Science, PlotTable, detector_images, selection_overlays}
use donut_server.Serve.Files.{Disk, stamp_path, selection_path}
use donut_server.Serve.Atomic.{written_complete, written_elsewhere}
use donut_server.Serve.Jobs.{
  Outside, Deferred, kind_name, write_parquet, write_selection, write_deferred,
}

-- a selection table's path is longer
stamp_path-selection_path :
    (job kind : Name) → length (stamp_path job) < length (selection_path job kind)
unfolding stamp_path selection_path
stamp_path-selection_path job kind =
    let suffix : Name = b'.' ∷ b'p' ∷ b'a' ∷ b'r' ∷ b'q' ∷ b'u' ∷ b'e' ∷ b't' ∷ [] in
    omega (
      arith,
      length-append job suffix,
      length-append job (b'.' ∷ (kind ++ suffix)),
      length-append kind suffix,
    )

module _ (l : Library) (s : Science l) (o : Outside l s) where
  write_parquet-elsewhere :
      (final path : Name) (table : s.Table) (disk : Disk)
      → length path < length final
      → lookup path (write_parquet l s o final table disk) ≡ lookup path disk
  unfolding write_parquet
  write_parquet-elsewhere final path table disk short = elim (Outcome-cases (s.to_parquet table)) [
    | inl (payload, e) ↦
        rw (e, write_parquet) (written_elsewhere (o.fault final) final path payload disk short)
    | inr (why, e) ↦ rw (e, write_parquet) refl
  ]

  write_selection-elsewhere :
      (d : Deferred l s) (name : PlotTable) (disk : Disk)
      → lookup (stamp_path d.job_id) (write_selection l s o d name disk)
        ≡ lookup (stamp_path d.job_id) disk
  unfolding write_selection
  write_selection-elsewhere d name disk = elim (Option-cases (d.selection name)) [
    | inl e ↦ rw (e, write_selection) refl
    | inr (subtable, e) ↦
        rw (e, write_selection)
          (write_parquet-elsewhere _ (stamp_path d.job_id) subtable disk
            (stamp_path-selection_path d.job_id (kind_name name)))
  ]

  -- Where the stamp table serializes and the write of its file does not fail, the deferred work leaves
  -- the whole table under the job's stamp path, whatever the writes of the selection tables do.
  write_deferred-stamps :
      (d : Deferred l s) (payload : Bytes) (disk : Disk)
      → s.to_parquet d.table ≡ ok payload
      → o.fault (stamp_path d.job_id) ≡ none
      → lookup (stamp_path d.job_id) (write_deferred l s o (some d) disk) ≡ some payload
  unfolding write_deferred write_parquet
  write_deferred-stamps d payload disk h unhurt =
      write_selection-elsewhere d selection_overlays _
      ∙ (write_selection-elsewhere d detector_images _
          ∙ rw (h, write_parquet, unhurt) (written_complete (stamp_path d.job_id) payload disk))
