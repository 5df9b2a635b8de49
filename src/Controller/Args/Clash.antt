-- ===== src/Controller/Args/Clash.antt =====
-- Two machines whose startup scripts have one file (pkg/controller/util.go and machine.go).
use text.Mathlib.TextLemmas.{append_assoc, append-nil, append_cancel_left, append-eq-nil_iff}
use docker_machine_operator.Base.{
  String, ◌<>◌, ◌≡◌, ◌≢◌, refl, sym, ◌∙◌, ap, none, some, [], ◌∷◌, test-ne,
}
use docker_machine_operator.Go.Error.{ok}
use docker_machine_operator.Go.Map.{GoMap}
use docker_machine_operator.Api.Types.{Machine, ObjectReference}
use docker_machine_operator.Env.Event.{History, got_secret, stat_file}
use docker_machine_operator.Env.{Env}
use docker_machine_operator.Effect.{done, call, machine, deref, ◌>>=◌}
use docker_machine_operator.Controller.Files.{script_path, get_script_file_path}
use docker_machine_operator.Controller.Secret.{object_key, get_secret}
use docker_machine_operator.Controller.Args.{get_startup_script_args}
use docker_machine_operator.Controller.Args.Parts.{script_file}
use docker_machine_operator.Controller.Args.Script.{
  IsScript, kept, user_data-script, write_script-placed,
}

one_file : (a b c : String) → script_path a (b <> ("-" <> c)) ≡ script_file (a <> ("-" <> b)) c
one_file a b c = simp append_assoc

longer : (a b : String) → (a <> ("-" <> b)) ≢ a
longer a b e =
    let nothing : ("-" <> b) ≡ "" = append_cancel_left a ("-" <> b) "" (e ∙ sym (append-nil a)) in
    test-ne "-" "" refl ((append-eq-nil_iff).0 nothing).0

-- Let the machine `b-c` of namespace `a` have a script that can be read. If the script file of the
-- machine `c` of namespace `a-b`, which is another namespace, is there, then the machine `b-c` of `a`
-- is given that file: its arguments name it, it is left as it is, and the text of its own script is
-- written nowhere.
pub get_startup_script_args-clash :
    (env : Env) (a b c : String) (m : Machine) (ref : ObjectReference) (scripts : GoMap)
    (key text : String) (h : History)
    → m.namespace ≡ a
    → m.name ≡ b <> ("-" <> c)
    → m.spec.script_ref ≡ some ref
    → env.get_secret h (object_key ref) ≡ ok scripts
    → IsScript scripts key text
    → env.stat (got_secret (object_key ref) (ok scripts) ∷ h) (script_file (a <> ("-" <> b)) c)
      ≡ none
    → ((a <> ("-" <> b)) ≢ a)
      × (get_startup_script_args env (record { machine_obj = some m; log = h }) ≡ (
        done (("--" <> key) ∷ script_file (a <> ("-" <> b)) c ∷ []),
        record {
          machine_obj = some m;
          log =
              stat_file (script_file (a <> ("-" <> b)) c) none
              ∷ got_secret (object_key ref) (ok scripts)
              ∷ h;
        },
      ))
unfolding get_startup_script_args get_secret machine call deref ◌>>=◌ get_script_file_path
get_startup_script_args-clash env a b c m ref scripts key text h space name named found script
      there =
    let path : get_script_file_path m ≡ script_file (a <> ("-" <> b)) c =
      ap (λ n. script_path n m.name) space ∙ ap (script_path a) name ∙ one_file a b c in
    let placing =
      write_script-placed env (script_file (a <> ("-" <> b)) c) key text (some m) (script.keyed)
        (script.full) (kept there) in
    (longer a b, simp (named, found, user_data-script script, path, placing))
