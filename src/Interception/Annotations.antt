-- ===== src/Interception/Annotations.antt =====
-- dync_hook/annotation_hooks.cpp: the annotations of include/tern/user.h. Without the options, and
-- inside the runtime, they do nothing.
use xtern.Base.{ℕ, ◌*◌, ◌%◌, ◌^◌, ◌&&◌, if◌then◌else◌, Option, some, ◌>>=◌}
use xtern.Space.{is_app}
use xtern.Thread.{CLib, ProcOptions, Thread, Runtime}
use xtern.Hooks.Services

-- The `struct timespec` of a `struct timeval`.
pub timespec_of : ℕ × ℕ → ℕ × ℕ
timespec_of (tv_sec, tv_usec) = (tv_sec, tv_usec * 1000 % 2 ^ 64)

module _ (c : CLib) (rt : Runtime c) (o : ProcOptions) where
  abbrev pub Annotation : Type 0
  Annotation = Thread c → Option (Thread c)

  -- `Space::isApp() && options::DMT && options::enforce_annotations`.
  unfoldable pub annotated : Annotation → Annotation
  unfolding is_app
  annotated f t = if is_app t.space && o.dmt && o.enforce_annotations then f t else some t

  -- The same, and `options::enforce_non_det_annotations`.
  unfoldable pub non_det_annotated : Annotation → Annotation
  unfolding is_app
  non_det_annotated f t =
      if is_app t.space && o.dmt && o.enforce_annotations && o.enforce_non_det_annotations
      then f t
      else some t

  pub soba_init : ℕ → ℕ → ℕ → Annotation
  soba_init opaque_type count timeout_turns =
      annotated (Services.lineup_init_real c rt opaque_type count timeout_turns)

  pub soba_destroy : ℕ → Annotation
  soba_destroy opaque_type = annotated (Services.lineup_destroy_real c rt opaque_type)

  pub lineup_start : ℕ → Annotation
  lineup_start opaque_type = annotated (Services.lineup_start_real c rt opaque_type)

  pub lineup_end : ℕ → Annotation
  lineup_end opaque_type = annotated (Services.lineup_end_real c rt opaque_type)

  unfoldable pub soba_wait : ℕ → Annotation
  soba_wait opaque_type = annotated (λ t.
      Services.lineup_start_real c rt opaque_type t >>= Services.lineup_end_real c rt opaque_type)

  pub pcs_enter : Annotation
  pcs_enter = non_det_annotated (Services.non_det_start_real c rt)

  pub pcs_exit : Annotation
  pcs_exit = non_det_annotated (Services.non_det_end_real c rt)

  -- `ts` is where the time stands.
  pub set_base_timespec : ℕ → Annotation
  set_base_timespec ts = annotated (Services.set_base_time_real c rt ts)

  -- `local` is where the time, turned into a `struct timespec`, stands.
  pub set_base_timeval : ℕ → Annotation
  set_base_timeval local = annotated (Services.set_base_time_real c rt local)

  pub detach : Annotation
  detach = annotated (Services.detach_real c rt)

  pub pcs_barrier_exit : ℕ → ℕ → Annotation
  pcs_barrier_exit bar_id cnt =
      non_det_annotated (Services.non_det_barrier_end_real c rt bar_id cnt)
