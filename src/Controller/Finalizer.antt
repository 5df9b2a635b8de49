-- ===== src/Controller/Finalizer.antt =====
-- pkg/controller/util.go: finalizers and annotations, which are patched on the API server.
use docker_machine_operator.Base.{String, if◌then◌else◌}
use docker_machine_operator.Go.Map.{put}
use docker_machine_operator.Api.Types.{Machine}
use docker_machine_operator.Api.Helper.{get_finalizer}
use docker_machine_operator.Env.Event.{
  Edit, finalizer_added, finalizer_removed, annotation_set, patched,
}
use docker_machine_operator.Env.{Env}
use docker_machine_operator.Effect.{Action, skip, call, machine, set_machine, ◌>>=◌}

module _ (env : Env) where
  -- The closures of `patchFinalizer` and `patchAnnotation`.
  abbrev pub transform : Edit → Machine → Machine
  transform (finalizer_added name) m = record m { finalizers = env.add_finalizer m.finalizers name }
  transform (finalizer_removed name) m = record m {
    finalizers = env.remove_finalizer m.finalizers name;
  }
  transform (annotation_set key value) m = record m { annotations = put key value m.annotations }

  -- `cu.CreateOrPatch(ctx, r.KBClient, r.machineObj, …)`, which overwrites the object in memory.
  unfoldable pub create_or_patch : Edit → Action Unit
  create_or_patch edit = do
    m ← machine
    stored ← call (λ h. env.create_or_patch h m (transform edit)) (patched m edit)
    set_machine stored

  unfoldable pub patch_finalizer : Edit → Action Unit
  unfolding create_or_patch
  patch_finalizer edit = create_or_patch edit

  unfoldable pub patch_annotation : String → String → Action Unit
  unfolding create_or_patch
  patch_annotation key value = create_or_patch (annotation_set key value)

  unfoldable pub ensure_finalizer : Action Unit
  unfolding patch_finalizer
  ensure_finalizer = do
    m ← machine
    if env.contains_finalizer m get_finalizer
        then skip
        else patch_finalizer (finalizer_added get_finalizer)
