-- ===== src/Task/Tests.antt =====
-- A shell whose process ID is the name of an agent.
use parrot_coder.Base.{ℕ, ◌≡◌, refl, true, List, [], ◌∷◌, Text, codes, text_eq}
use parrot_coder.Task.Manager.{
  Kind, agent, shell, Entry, Manager, found, key_for_kind, domain_key_for, has_key, add_at,
  register, unregister, scan_ids, resolve, key_of,
}
use parrot_coder.Task.Resolution.{Resolved, resolve-Resolved}
use parrot_coder.Task.Registry.{register-unregister}

abbrev entry : ℕ → Text → Text → Text → Kind → Entry
entry handle name session process kind = record {
  handle = handle;
  snapshot = record {
    name = name;
    session_id = session;
    process_id = process;
    kind = kind;
    status = codes "running";
  };
  visible = λ caller. true;
}

abbrev build : Entry
build = entry 1 (codes "build") (codes "s") (codes "p1") shell

abbrev helper : Entry
helper = entry 2 (codes "p1") (codes "s2") [] agent

abbrev tasks : List Entry
tasks = helper ∷ build ∷ []

id_first : resolve (codes "s") (codes "p1") shell tasks ≡ found build
unfolding resolve scan_ids text_eq
id_first = refl

resolve-Resolved_example :
    Resolved
      (codes "s")
      (codes "build")
      shell
      tasks
      (resolve (codes "s") (codes "build") shell tasks)
resolve-Resolved_example = resolve-Resolved (codes "s") (codes "build") shell tasks refl refl

abbrev manager : Manager
manager = (key_of helper.snapshot, helper) ∷ []

register-unregister_example :
    unregister build.snapshot ((key_of build.snapshot, build) ∷ manager) ≡ manager
unfolding register add_at domain_key_for key_for_kind has_key
register-unregister_example =
    register-unregister build manager ((key_of build.snapshot, build) ∷ manager) refl
