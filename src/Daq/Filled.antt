-- ===== src/Daq/Filled.antt =====
-- The block after `fill` of the encoder of daq.py, which is the blob that `pack_blob` packs.
use donut_server.Prelude.{
  ℕ, ◌+◌, ◌≡◌, inr, sym, ap, ap₂, subst, ◌∙◌, Bool, true, none, some, List, [], ◌++◌, arith, All,
  length, leb, map, keys, Distinct, Fresh-nil,
}
use donut_server.Bytes.{Bytes, Codec, name_eq}
use donut_server.Exec.{ok, pure, ok_inj, bind-eq-ok, lift-bind-eq-ok}
use donut_server.Exec.Raise.{check}
use donut_server.Protocol
use donut_server.Protocol.{◌>>=◌ as ◌>>>◌, header_size, raw_data, pack_blob, descriptor_region_size}
use donut_server.Protocol.Framing.{
  Offsets, Tiles, sizes_of, assign_offsets, assign_offsets-Tiles, build_framing,
}
use donut_server.Protocol.InPlace.{pack_blob-eq-build_framing}
use donut_server.Protocol.Pinned.{total_size, region, build_framing_unpinned, build_framing-Tiles}
use donut_server.Daq.{Stack}
use donut_server.Daq.Memory.{Cells, overlay, read, read-add, read-overlay, read-overlay_apart}
use donut_server.Daq.Shared.{unavailable, meta_too_long, World, write, export_view, set_context}
use donut_server.Daq.Encode.{
  Sensor, Bench, Laid, nothing_laid, lay_images, lay_metas, part_names, fan_out, write_metas, frame,
  fill, of_protocol,
}
use donut_server.Daq.Laid.{
  lay_all, lay_all-append, lay_all_offsets, lay_all_sizes, sizes_of-append, total_size-sizes_of,
  Tiles-split, Distinct-left,
}
use donut_server.Daq.Wire.{meta_of, IsEncoded, img_parts, meta_parts, Slots}
use donut_server.Daq.Placed.{Holds, write-Holds, Placed, read-Placed, Placed-append, Placed-kept}
use donut_server.Daq.Blob.{
  wire_parts, lay_images-lay_all, lay_metas-lay_all, region-part_names, write_metas-Placed,
  fan_out-Placed, Slots-of, export_view-Holds,
}

pub of_protocol-eq-ok :
    {A : Type 0} (r : Protocol.Result A) {a : A} → of_protocol r ≡ ok a → r ≡ Protocol.ok a
unfolding of_protocol
of_protocol-eq-ok (Protocol.ok a) h = ap Protocol.ok (ok_inj h)
of_protocol-eq-ok (Protocol.err why) h = absurd (ground arith)

set_context-Holds :
    (filled : Bool) (cells : Cells) (w w' : World)
    → Holds cells w
    → set_context filled w ≡ (ok tt, w')
    → Holds cells w'
unfolding set_context
set_context-Holds filled cells w w' (m, at, same) h = (m, sym (ap (λ r. r.1.mapping) h) ∙ at, same)

module _ (k : Stack) (b : Bench k) (c : Codec) (ss : List (Sensor k))
    (distinct : Distinct (keys (sizes_of (wire_parts k b ss)))) where
  -- the offsets of the images alone tile as well
  images-Slots :
      (data_start : ℕ)
      → All (IsEncoded k b) ss
      → Slots k b data_start (lay_images k b ss nothing_laid).offsets ss 0
  images-Slots data_start e =
      let imgs = sizes_of (img_parts k b ss) in
      let same : (assign_offsets [] imgs 0).0 ≡ (lay_images k b ss nothing_laid).offsets = sym (
        ap (λ l. l.offsets) (lay_images-lay_all k b ss nothing_laid e)
        ∙ lay_all_offsets imgs nothing_laid) in
      Slots-of k b data_start (lay_images k b ss nothing_laid).offsets ss 0
        (subst (λ o. Tiles o imgs 0) same
          (assign_offsets-Tiles [] imgs 0
            (Distinct-left (img_parts k b ss) (meta_parts k b ss) distinct)))
        e

  -- the dicts for the framing are the parts' sizes, and the offsets they would have anyway
  whole_laid :
      All (IsEncoded k b) ss
      → let whole =
          lay_metas k b (map (λ s. (s, meta_of k b s)) ss) (lay_images k b ss nothing_laid) in
        (whole.sizes ≡ sizes_of (wire_parts k b ss))
        × (whole.offsets ≡ (assign_offsets [] (sizes_of (wire_parts k b ss)) 0).0)
  whole_laid e =
      let imgs = sizes_of (img_parts k b ss) in
      let metas = sizes_of (meta_parts k b ss) in
      let all = sizes_of (wire_parts k b ss) in
      let laid : lay_metas k b (map (λ s. (s, meta_of k b s)) ss) (lay_images k b ss nothing_laid)
          ≡ lay_all all nothing_laid =
        lay_metas-lay_all k b ss (lay_images k b ss nothing_laid)
        ∙ ap (lay_all metas) (lay_images-lay_all k b ss nothing_laid e)
        ∙ sym (lay_all-append imgs metas nothing_laid)
        ∙ ap (λ p. lay_all p nothing_laid)
            (sym (sizes_of-append (img_parts k b ss) (meta_parts k b ss))) in
      (
        ap (λ l. l.sizes) laid ∙ lay_all_sizes all nothing_laid distinct (Fresh-nil ℕ all),
        ap (λ l. l.offsets) laid ∙ lay_all_offsets all nothing_laid,
      )

  -- the cells after the framing and the metas are the blob
  written-Blob :
      (data_start total : ℕ) (framing : Bytes) (absolute : Offsets) (cells₁ : Cells)
      (w₁ w₂ w₃ : World)
      → data_start ≡ header_size + region c (part_names k b ss)
      → build_framing c (sizes_of (wire_parts k b ss)) none ≡ Protocol.ok (framing, absolute, total)
      → Holds cells₁ w₁
      → Placed cells₁ (img_parts k b ss) data_start
      → write 0 framing w₁ ≡ (ok tt, w₂)
      → write_metas k b absolute (map (λ s. (s, meta_of k b s)) ss) w₂ ≡ (ok tt, w₃)
      → (cells : Cells) × Holds cells w₃
        × (read cells 0 total ≡ framing ++ raw_data (wire_parts k b ss))
  written-Blob data_start total framing absolute cells₁ w₁ w₂ w₃ start built held placed framed h =
      let parts = wire_parts k b ss in
      let imgs = img_parts k b ss in
      let metas = meta_parts k b ss in
      let (size, tiles, sum) =
        build_framing-Tiles c (sizes_of parts) framing absolute total distinct built in
      let here : data_start ≡ length framing =
        start ∙ ap (λ n. header_size + n) (region-part_names k b c ss) ∙ sym size in
      let meta_start : length framing + total_size (sizes_of imgs)
          ≡ length framing + length (raw_data imgs) =
        ap (λ n. length framing + n) (total_size-sizes_of imgs) in
      let meta_tiles = subst (Tiles absolute (sizes_of metas)) meta_start (
        Tiles-split absolute (sizes_of imgs) (sizes_of metas) (length framing)
          (subst (λ p. Tiles absolute p (length framing)) (sizes_of-append imgs metas) tiles)) in
      let cells₂ = overlay 0 framing cells₁ in
      let held₂ = write-Holds 0 framing cells₁ w₁ w₂ held framed in
      let (cells, held₃, metas_placed, kept) =
        write_metas-Placed k b absolute ss (length framing + length (raw_data imgs)) cells₂ w₂ w₃
          meta_tiles held₂ h in
      let imgs_placed : Placed cells imgs (length framing) =
        Placed-kept cells₁ cells imgs (length framing)
          (λ s n l u. kept s n u ∙ read-overlay_apart 0 framing cells₁ s n (inr (omega (arith, l))))
          (subst (Placed cells₁ imgs) here placed) in
      let head : read cells 0 (length framing) ≡ framing =
        kept 0 (length framing) (omega arith) ∙ read-overlay 0 framing cells₁ in
      let tail =
        read-Placed cells parts (length framing)
          (Placed-append cells imgs metas (length framing) imgs_placed metas_placed) in
      let whole : total ≡ length framing + length (raw_data parts) =
        sum ∙ ap (λ n. length framing + n) (total_size-sizes_of parts) in
      let zero : 0 + length framing ≡ length framing = omega arith in
      (
        cells,
        held₃,
        ap (read cells 0) whole
            ∙ read-add cells 0 (length framing) (length (raw_data parts))
            ∙ ap (λ h. h ++ read cells (0 + length framing) (length (raw_data parts))) head
            ∙ ap (λ s. framing ++ read cells s (length (raw_data parts))) zero
            ∙ ap (λ r. framing ++ r) tail,
      )

  -- the steps of a framing that returned
  frame-eq-ok :
      (metas : List (Sensor k × Bytes)) (whole : Laid) (block_size total : ℕ) (w w' : World)
      → frame k b c metas whole block_size w ≡ (ok total, w')
      → (framing : Bytes) × (absolute : Offsets) × (ws : World × World) × (build_framing c
            whole.sizes
            (some whole.offsets)
          ≡ Protocol.ok (framing, absolute, total))
        × (write 0 framing w ≡ (ok tt, ws.0))
        × (write_metas k b absolute metas ws.0 ≡ (ok tt, ws.1))
        × (ws.1 ≡ w')
  unfolding frame pure
  frame-eq-ok metas whole block_size total w w' h =
      let (r, built, h₁) =
        lift-bind-eq-ok (of_protocol (build_framing c whole.sizes (some whole.offsets))) _ w w' h in
      let (_, fits, h₂) =
        lift-bind-eq-ok (check (leb r.2 block_size) (unavailable meta_too_long)) _ w w' h₁ in
      let (_, t, framed, h₃) = bind-eq-ok (write 0 r.0) _ w w' h₂ in
      let (_, u, written, done) = bind-eq-ok (write_metas k b r.1 metas) (λ _. pure r.2) t w' h₃ in
      let same : r.2 ≡ total = ok_inj (ap (λ r. r.0) done) in
      (
        r.0,
        r.1,
        (t, u),
        of_protocol-eq-ok (build_framing c whole.sizes (some whole.offsets)) built
            ∙ ap (λ n. Protocol.ok (r.0, r.1, n)) same,
        framed,
        written,
        ap (λ r. r.1) done,
      )

  pub fill-Blob :
      (data_start block_size total : ℕ) (cells₀ : Cells) (w w' : World)
      → data_start ≡ header_size + region c (part_names k b ss)
      → Holds cells₀ w
      → fill k b c ss (lay_images k b ss nothing_laid) data_start block_size w ≡ (ok total, w')
      → All (IsEncoded k b) ss
        × ((cells : Cells) × Holds cells w'
            × (pack_blob c (wire_parts k b ss) ≡ Protocol.ok (read cells 0 total)))
  unfolding fill
  fill-Blob data_start block_size total cells₀ w w' start held h =
      let laid = lay_images k b ss nothing_laid in
      let parts = wire_parts k b ss in
      let (_, w₁, set, h₁) = bind-eq-ok (set_context true) _ w w' h in
      let (metas, w₂, fanned, h₂) =
        bind-eq-ok (fan_out k b data_start laid.offsets ss) _ w₁ w' h₁ in
      let (encoded, listed, (cells₁, held₂, placed)) =
        fan_out-Placed k b data_start laid.offsets ss cells₀ metas w₁ w₂ (images-Slots data_start)
          (set_context-Holds true cells₀ w w₁ held set) fanned in
      let (_, w₃, exported, h₃) = bind-eq-ok export_view _ w₂ w' h₂ in
      let held₃ = export_view-Holds k b cells₁ w₂ w₃ held₂ exported in
      let whole = lay_metas k b metas laid in
      let (framing, absolute, (w₄, w₅), built, framed, written, done) =
        frame-eq-ok metas whole block_size total w₃ w' h₃ in
      let (sizes, offsets) = whole_laid encoded in
      let same_whole : whole ≡ lay_metas k b (map (λ s. (s, meta_of k b s)) ss) laid =
        ap (λ ms. lay_metas k b ms laid) listed in
      let pinned : build_framing c (sizes_of parts) (some (assign_offsets [] (sizes_of parts) 0).0)
          ≡ Protocol.ok (framing, absolute, total) =
        ap₂ (λ ss os. build_framing c ss (some os)) (sym (ap (λ l. l.sizes) same_whole ∙ sizes))
          (sym (ap (λ l. l.offsets) same_whole ∙ offsets))
        ∙ built in
      let unpinned =
        build_framing_unpinned c (sizes_of parts) (framing, absolute, total) distinct pinned in
      let (cells, held₅, blob) =
        written-Blob data_start total framing absolute cells₁ w₃ w₄ w₅ start unpinned held₃ placed
          framed (subst (λ ms. write_metas k b absolute ms w₄ ≡ (ok tt, w₅)) listed written) in
      (
        encoded,
        (
          cells,
          subst (Holds cells) done held₅,
          pack_blob-eq-build_framing c parts distinct
              ∙ ap (λ r. r >>> λ r. Protocol.ok (r.0 ++ raw_data parts)) unpinned
              ∙ ap Protocol.ok (sym blob),
        ),
      )
