-- ===== src/State/Redis/Keys.antt =====
-- The keys of the Redis store: the prefixes keep the kinds of objects apart.
use Prim.Native.String.{◌++◌, len, slice}
use text.Mathlib.TextLemmas.{append_cancel_left, append_assoc}
use text.Mathlib.TextPositions.{slice-append_left}
use cluster_mesh.Prelude.{String, false, ◌≡◌, refl, sym, ap, ◌∙◌, arith, ◌==◌, eq_iff}
use cluster_mesh.State.Redis.{job_prefix, task_prefix, checkpoint_prefix, node_prefix}

-- No key of the one prefix is a key of the other.
abbrev pub Apart : String → String → Type 0
Apart p q = (a b : String) → ((p ++ a) == (q ++ b)) ≡ false

starts : (p r a : String) → slice ((p ++ r) ++ a) 0 (len p) ≡ p
starts p r a = rw (append_assoc p r a) (slice-append_left p (r ++ a))

same_start : (p r q s a b : String) → len p ≡ len q → (p ++ r) ++ a ≡ (q ++ s) ++ b → p ≡ q
same_start p r q s a b l e =
    sym (starts p r a)
    ∙ ap (λ u. slice u 0 (len p)) e
    ∙ ap (λ n. slice ((q ++ s) ++ b) 0 n) l
    ∙ starts q s b

starts-Apart : (p r q s : String) → len p ≡ len q → (p == q) ≡ false → Apart (p ++ r) (q ++ s)
starts-Apart p r q s l d a b =
    ground (arith, eq_iff ((p ++ r) ++ a) ((q ++ s) ++ b), eq_iff p q, same_start p r q s a b l)

pub Apart_sym : (p q : String) → Apart p q → Apart q p
Apart_sym p q h a b = ground (arith, eq_iff (q ++ a) (p ++ b), eq_iff (p ++ b) (q ++ a), h b a)

pub same_prefix : (p a b : String) → ((p ++ a) == (p ++ b)) ≡ (a == b)
same_prefix p a b = ground (arith, eq_iff (p ++ a) (p ++ b), eq_iff a b, append_cancel_left p a b)

pub job_task : Apart job_prefix task_prefix
job_task = starts-Apart "mesh:j" "ob:" "mesh:t" "ask:" refl refl

pub job_checkpoint : Apart job_prefix checkpoint_prefix
job_checkpoint = starts-Apart "mesh:j" "ob:" "mesh:c" "p:" refl refl

pub job_node : Apart job_prefix node_prefix
job_node = starts-Apart "mesh:j" "ob:" "mesh:n" "ode:" refl refl

pub task_checkpoint : Apart task_prefix checkpoint_prefix
task_checkpoint = starts-Apart "mesh:t" "ask:" "mesh:c" "p:" refl refl

pub task_node : Apart task_prefix node_prefix
task_node = starts-Apart "mesh:t" "ask:" "mesh:n" "ode:" refl refl

pub checkpoint_node : Apart checkpoint_prefix node_prefix
checkpoint_node = starts-Apart "mesh:c" "p:" "mesh:n" "ode:" refl refl
