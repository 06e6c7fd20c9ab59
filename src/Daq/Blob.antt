-- ===== src/Daq/Blob.antt =====
-- What `fan_out` and `write_metas` of daq.py leave in the block, part by part.
use donut_server.Prelude.{
  ℕ, ◌+◌, ◌≤◌, ◌≡◌, inl, refl, sym, ap, subst, ◌∙◌, not, List, [], ◌∷◌, ◌++◌, arith, All, In,
  length, lookup, map, keys, All-map, All-In,
}
use donut_server.Bytes.{Bytes, Name, Codec, name_eq}
use donut_server.Exec.{ok, lift, pure, ok_inj, bind-eq-ok, lift-bind-eq-ok}
use donut_server.Exec.Raise.{require, require-eq-ok, check}
use donut_server.Protocol.Parts.{img_suffix, meta_suffix, part_name}
use donut_server.Protocol.Framing.{Offsets, Tiles, sizes_of}
use donut_server.Protocol.Pinned.{region}
use donut_server.Daq.Resolved.{All-In_self}
use donut_server.Daq.{Stack}
use donut_server.Daq.Memory.{Cells, overlay, read, read-overlay, read-overlay_apart}
use donut_server.Daq.Shared.{
  Fault, unavailable, key_error, pool_lost, interrupted, Mapping, World, write, export_view,
}
use donut_server.Daq.Encode.{
  Sensor, Bench, Laid, lay, lay_images, lay_metas, part_names, fan_out, gather_metas, or_failures,
  write_images, write_metas, slot_start,
}
use donut_server.Daq.Laid.{lay_all, region_append}
use donut_server.Daq.Wire.{
  pixels_of, meta_of, IsEncoded, img_parts, meta_parts, length-pixels_of, gather_metas-IsEncoded,
  paint, write_images-paint, Slots, IsPainted, paint-IsPainted, IsPainted-Placed,
}
use donut_server.Daq.Placed.{Holds, write-Holds, Placed}

module _ (k : Stack) (b : Bench k) where
  -- images first, then metas, as the encoder lays them
  abbrev pub wire_parts : List (Sensor k) → List (Name × Bytes)
  wire_parts ss = img_parts k b ss ++ meta_parts k b ss

  pub lay_images-lay_all :
      (ss : List (Sensor k)) (laid : Laid)
      → All (IsEncoded k b) ss
      → lay_images k b ss laid ≡ lay_all (sizes_of (img_parts k b ss)) laid
  unfolding lay_images lay_all
  lay_images-lay_all [] laid e = refl
  lay_images-lay_all (s ∷ ss) laid e =
      ap (λ n. lay_images k b ss (lay (part_name s.name img_suffix) n laid))
        (sym (length-pixels_of k b s e.0))
      ∙ lay_images-lay_all ss _ e.1

  pub lay_metas-lay_all :
      (ss : List (Sensor k)) (laid : Laid)
      → lay_metas k b (map (λ s. (s, meta_of k b s)) ss) laid
        ≡ lay_all (sizes_of (meta_parts k b ss)) laid
  unfolding lay_metas lay_all
  lay_metas-lay_all [] laid = refl
  lay_metas-lay_all (s ∷ ss) laid = lay_metas-lay_all ss _

  -- the descriptors are as long in either order of the names
  pub region-part_names :
      (c : Codec) (ss : List (Sensor k))
      → region c (part_names k b ss) ≡ region c (keys (sizes_of (wire_parts ss)))
  region-part_names c [] = refl
  region-part_names c (s ∷ ss) = omega (
    arith,
    region-part_names c ss,
    region_append c (img_parts k b ss) (meta_parts k b ss),
    region_append c (img_parts k b ss) (meta_parts k b (s ∷ ss)),
  )

  -- a write at the absolute offsets of the metas
  pub write_metas-Placed :
      (absolute : Offsets) (ss : List (Sensor k)) (start : ℕ) (cells : Cells) (w w' : World)
      → Tiles absolute (sizes_of (meta_parts k b ss)) start
      → Holds cells w
      → write_metas k b absolute (map (λ s. (s, meta_of k b s)) ss) w ≡ (ok tt, w')
      → (cells' : Cells) × Holds cells' w'
        × Placed cells' (meta_parts k b ss) start
        × ((s n : ℕ) → s + n ≤ start → read cells' s n ≡ read cells s n)
  unfolding write_metas pure
  write_metas-Placed absolute [] start cells w w' t held h =
      (cells, subst (Holds cells) (ap (λ r. r.1) h) held, tt, λ s n l. refl)
  write_metas-Placed absolute (s ∷ ss) start cells w w' t held h =
      let part = part_name s.name meta_suffix in
      let meta = meta_of k b s in
      let (at, found, h₁) = lift-bind-eq-ok (require (lookup part absolute) key_error) _ w w' h in
      let same : at ≡ start =
        ground (arith, require-eq-ok (lookup part absolute) key_error found, t.0) in
      let (_, u, written, rest) =
        bind-eq-ok (write at meta)
          (λ _. write_metas k b absolute (map (λ s. (s, meta_of k b s)) ss)) w w' h₁ in
      let held' =
        subst (λ n. Holds (overlay n meta cells) u) same
          (write-Holds at meta cells w u held written) in
      let (cells', held'', placed, kept) =
        write_metas-Placed absolute ss (start + length meta) (overlay start meta cells) u w' t.1
          held' rest in
      (
        cells',
        held'',
        (kept start (length meta) (omega arith) ∙ read-overlay start meta cells, placed),
        λ s n l. kept s n (omega (arith, l)) ∙ read-overlay_apart start meta cells s n (inl l),
      )

  -- what the workers leave: every sensor is encoded, and the images stand from `data_start`
  pub fan_out-Placed :
      (data_start : ℕ) (offsets : Offsets) (ss : List (Sensor k)) (cells : Cells)
      (metas : List (Sensor k × Bytes)) (w w' : World)
      → (All (IsEncoded k b) ss → Slots k b data_start offsets ss 0)
      → Holds cells w
      → fan_out k b data_start offsets ss w ≡ (ok metas, w')
      → All (IsEncoded k b) ss
        × (metas ≡ map (λ s. (s, meta_of k b s)) ss)
        × ((cells' : Cells) × Holds cells' w' × Placed cells' (img_parts k b ss) data_start)
  unfolding fan_out
  fan_out-Placed data_start offsets ss cells metas w w' tiled held h =
      let (_, t, written, h₁) =
        bind-eq-ok (write_images k b data_start offsets (b.order ss)) _ w w' h in
      let (_, waited, h₃) = lift-bind-eq-ok (check (not b.is_interrupted) interrupted) _ t w' h₁ in
      let (_, pool, h₂) =
        lift-bind-eq-ok (check (not b.pool_fails) (unavailable pool_lost)) _ t w' h₃ in
      let (none_failed, found) =
        or_failures-eq-ok (gather_metas k b ss).0 (gather_metas k b ss).1 t w' h₂ in
      let (encoded, listed) = gather_metas-IsEncoded k b ss none_failed in
      let tiles = tiled encoded in
      let within = All-order ss in
      let ordered =
        All-map _ _ (b.order ss) (λ s at. All-In (IsEncoded k b) s ss encoded at) within in
      let cells' = paint k b data_start offsets (b.order ss) cells in
      let painted : All (IsPainted k b data_start offsets cells') ss =
        All-map _ _ ss
          (λ s at.
            paint-IsPainted k b data_start offsets ss 0 tiles encoded (b.order ss) cells s within at
              (inl (b.order_all ss s at)))
          (All-In_self ss) in
      let zero : data_start + 0 ≡ data_start = omega arith in
      (
        encoded,
        sym found.0 ∙ listed,
        (
          cells',
          subst (Holds cells') found.1 (
              write_images-paint k b data_start offsets (b.order ss) cells w t ordered held
                written),
          subst (Placed cells' (img_parts k b ss)) zero (
              IsPainted-Placed k b data_start offsets ss 0 tiles encoded cells' ss 0 tiles encoded
                painted),
        ),
      )
    where
      or_failures-eq-ok :
          (failures : List (ℕ × Fault)) (found : List (Sensor k × Bytes)) (t w' : World)
          → lift (or_failures failures found) t ≡ (ok metas, w')
          → (failures ≡ []) × ((found ≡ metas) × (t ≡ w'))
      or_failures-eq-ok [] found t w' e = (refl, (ok_inj (ap (λ r. r.0) e), ap (λ r. r.1) e))
      or_failures-eq-ok (f ∷ failures) found t w' e = absurd (ground (arith, ap (λ r. r.0) e))

      All-order : (ss : List (Sensor k)) → All (λ o. In o ss) (b.order ss)
      All-order ss =
          All-map _ _ (b.order ss) (λ o at. b.order_only ss o at) (All-In_self (b.order ss))

  pub Slots-of :
      (data_start : ℕ) (offsets : Offsets) (ss : List (Sensor k)) (cursor : ℕ)
      → Tiles offsets (sizes_of (img_parts k b ss)) cursor
      → All (IsEncoded k b) ss
      → Slots k b data_start offsets ss cursor
  unfolding slot_start
  Slots-of data_start offsets [] cursor t e = tt
  Slots-of data_start offsets (s ∷ ss) cursor t e = (
    rw (t.0, slot_start) refl,
    subst (Slots k b data_start offsets ss) (ap (λ n. cursor + n) (length-pixels_of k b s e.0))
        (Slots-of data_start offsets ss (cursor + length (pixels_of k b s)) t.1 e.1),
  )

  pub export_view-Holds :
      (cells : Cells) (w w' : World) → Holds cells w → export_view w ≡ (ok tt, w') → Holds cells w'
  unfolding export_view
  export_view-Holds cells w w' (m, at, same) h =
      let done = rw at at h in
      let m' : Mapping = record m { views = m.views + 1 } in
      (m', sym (ap (λ r. r.1.mapping) done), same)
