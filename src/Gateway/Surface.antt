-- ===== src/Gateway/Surface.antt =====
-- The frames that the gateway writes for the viewer: hive/internal/gateway/gateway.go, lines 480 to
-- 548 and 955 to 986.
use herdr_hive.Base.{
  ℕ, ◌+◌, ◌*◌, Bool, ◌||◌, ◌&&◌, not, Option, none, some, [], ◌∷◌, ◌++◌, ◌==◌, if◌then◌else◌, Bytes,
  bytes_eq, codes, replicate,
}
use herdr_hive.Json.{Value, StdLib, null, member, number_val}
use herdr_hive.Wire.Encode.{number}
use herdr_hive.Wire.Encode
use herdr_hive.Wire.Decoder.{decoder, M, ◌>>=◌, ◌>>◌, pure, num, text, replace_num}
use herdr_hive.Wire.Codec.{opening, surface}
use herdr_hive.Wire.Complete.{u64}
use herdr_hive.Wire.Complete.Update.{bytes}
use herdr_hive.Gateway.{Backend, wire, Session, Outcome, is_handle, write_down, ◌then_do◌}

abbrev pub snapshot_of : Option Value → Value
snapshot_of none = null
snapshot_of (some v) = v

-- `b.snapshot["revision"]`
unfoldable pub projection_of : StdLib → Backend → ℕ
projection_of l b = number_val l (member (codes "revision") (snapshot_of b.snapshot))

repeat_bytes : ℕ → Bytes → Bytes
repeat_bytes Prim.Native.Nat.zero b = []
repeat_bytes (Prim.Native.Nat.suc n) b = b ++ repeat_bytes n b

abbrev pub blank_cell : Bytes
blank_cell = 1 ∷ b' ' ∷ 0 ∷ 0 ∷ 0 ∷ 0 ∷ 0 ∷ []

-- The frame of `blankSurface`.
unfoldable pub blank_frame : Session → Bytes
unfolding repeat_bytes
blank_frame g =
    (13 ∷ Encode.str g.boot)
    ++ (number g.revision
        ++ (number g.surface_revision
            ++ (number (g.cols * g.rows)
                ++ (repeat_bytes (g.cols * g.rows) blank_cell
                    ++ (number g.cols ++ (number g.rows ++ replicate 9 0))))))

-- `blankSurface`
unfoldable pub blank_surface : Session → Outcome
blank_surface g =
    let g1 = record g { rendered_source = none; surface_revision = u64 (g.surface_revision + 1) } in
    write_down (blank_frame g1) g1

-- The surface revision of a full frame, replaced; with the one that it had.
unfoldable pub stamp_full : ℕ → Bytes → ℕ × Bytes
stamp_full revision p =
    let r = (do num; text; num; replace_num revision) (decoder p) in (r.0, r.1.out ++ r.1.rest)

-- The two surface revisions of a patch, replaced.
unfoldable pub stamp_patch : ℕ → ℕ → Bytes → Bytes
stamp_patch base revision p =
    let r = (do num; text; num; replace_num base; replace_num revision) (decoder p) in
    r.1.out ++ r.1.rest

-- The viewer has the exact baseline of the patch.
unfoldable pub is_baseline : ℕ → ℕ × ℕ × ℕ → Session → Bool
is_baseline b h g =
    is_handle g.rendered_source b
    && g.rendered_revision == g.revision
    && g.rendered_project == h.0
    && g.rendered_surface == h.1

module _ (l : StdLib) where
  unfoldable pub send_frame : ℕ → ℕ → Option Bytes → Session → Outcome
  send_frame b projection none g = (some wire, g)
  send_frame b projection (some p) g =
      let g1 = record g { surface_revision = u64 (g.surface_revision + 1) } in
      let s = stamp_full g1.surface_revision p in
      write_down s.1 g1 then_do λ g2. (
        none,
        record g2 {
          rendered_source = some b;
          rendered_revision = g2.revision;
          rendered_project = projection;
          rendered_surface = s.0;
        },
      )

  unfoldable pub send_complete : ℕ → Option Bytes → Session → Outcome
  unfolding send_frame
  send_complete b none g = (none, g)
  send_complete b (some raw) g =
      let s = g.heap b in
      let o = (opening (decoder raw)).0 in
      if not (bytes_eq o.1 s.boot) || not (o.2 == projection_of l s)
      then (none, g)
      else send_frame b o.2 (surface raw g.boot g.revision (λ id. s.prefix ++ id)) g

  unfoldable pub send_active : Option ℕ → Session → Outcome
  unfolding send_complete
  send_active none g = blank_surface g
  send_active (some b) g = send_complete b (bytes (g.heap b).frame) g

  -- `sendSurface`
  unfoldable pub send_surface : Session → Outcome
  unfolding send_active
  send_surface g = if g.surface_active then send_active g.active g else (none, g)

  unfoldable pub stamp_and_send : ℕ → Option Bytes → Session → Outcome
  stamp_and_send revision none g = (some wire, g)
  stamp_and_send revision (some p) g =
      let g1 = record g { surface_revision = u64 (g.surface_revision + 1) } in
      write_down (stamp_patch g.surface_revision g1.surface_revision p) g1 then_do λ g2.
      (none, record g2 { rendered_surface = revision })

  -- The tag, the boot identity and the three numbers of a patch.
  unfoldable pub patch_header : M (ℕ × ℕ × ℕ)
  patch_header = do
    num
    text
    projection ← num
    base ← num
    revision ← num
    pure (projection, base, revision)

  -- `sendPatch`
  unfoldable pub send_patch : ℕ → Bytes → Session → Outcome
  unfolding stamp_and_send
  send_patch b raw g =
      let h = (patch_header (decoder raw)).0 in
      if not g.surface_active
      then (none, g)
      else if is_baseline b h g
      then stamp_and_send h.2 (surface raw g.boot g.revision (λ id. (g.heap b).prefix ++ id)) g
      else send_surface g
