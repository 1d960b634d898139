-- ===== src/Kernel/Graph.antt =====
-- dev_orchestrator/v8/kernel.py: the mission graph.
use async_native_ai_orchestr.Prelude.{
  String, ◌≡◌, refl, Bool, true, List, [], ◌∷◌, ◌++◌, Option, none, some, arith, str_eq, eq_refl,
  any, All, All-map, Bool-cases, inl, inr, if_both,
}
use async_native_ai_orchestr.Store.Jobs.{Job}
use async_native_ai_orchestr.Store.Records.{Project, Run, Wave, WorkPackage}
use async_native_ai_orchestr.Kernel.{
  Node, node_id, Edge, wave_part, package_part, job_part, package_edges, dependency_edges,
  job_edges, package_node_id, job_node_id, node_of_wave, node_of_package, node_of_job, wave_node_id,
  sort_waves, take_first, build_mission_graph, run_node, run_node_id, text_or,
}

abbrev pub has_node : List Node → String → Bool
has_node nodes id = any (λ n. str_eq (node_id n) id) nodes

abbrev pub AllTargets : List Node → List Edge → Type 0
AllTargets nodes = All (λ e. has_node nodes e.target ≡ true)

All-append {ℓ κ} :
    {A : Type ℓ} (P : A → Type κ) (xs ys : List A) → All P xs → All P ys → All P (xs ++ ys)
All-append P [] ys hx hy = hy
All-append P (x ∷ xs) ys (h, hx) hy = (h, All-append P xs ys hx hy)

has_node-append_right :
    (ms ns : List Node) (id : String) → has_node ns id ≡ true → has_node (ms ++ ns) id ≡ true
has_node-append_right [] ns id h = h
has_node-append_right (m ∷ ms) ns id h = ground (arith, has_node-append_right ms ns id h)

has_node-append_left :
    (ms ns : List Node) (id : String) → has_node ms id ≡ true → has_node (ms ++ ns) id ≡ true
has_node-append_left [] ns id h = absurd (cc)
has_node-append_left (m ∷ ms) ns id h = elim (Bool-cases (str_eq (node_id m) id)) [
  | inl here ↦ rw here refl
  | inr there ↦ rw there (has_node-append_left ms ns id (rw there at h))
]

AllTargets-append :
    (ms ns : List Node) (es fs : List Edge)
    → AllTargets ms es
    → AllTargets ns fs
    → AllTargets (ms ++ ns) (es ++ fs)
AllTargets-append ms ns es fs he hf =
    All-append (λ e. has_node (ms ++ ns) e.target ≡ true) es fs
      (All-map es (λ e h. has_node-append_left ms ns e.target h) he)
      (All-map fs (λ e h. has_node-append_right ms ns e.target h) hf)

AllTargets-cons :
    (n : Node) (ns : List Node) (es : List Edge) → AllTargets ns es → AllTargets (n ∷ ns) es
AllTargets-cons n ns es h = All-map es (λ e h'. has_node-append_right (n ∷ []) ns e.target h') h

wave_part-AllTargets :
    (run : Run) (ws : List Wave) → AllTargets (wave_part run ws).0 (wave_part run ws).1
unfolding wave_part
wave_part-AllTargets run [] = tt
wave_part-AllTargets run (w ∷ ws) =
    let rest = wave_part-AllTargets run ws in
    (
      rw (eq_refl (wave_node_id w)) refl,
      AllTargets-cons (node_of_wave w) (wave_part run ws).0 (wave_part run ws).1 rest,
    )

dependency_edges-AllTargets :
    (p : WorkPackage) (n : Node) (ds : List String)
    → node_id n ≡ package_node_id p
    → AllTargets (n ∷ []) (dependency_edges p ds)
dependency_edges-AllTargets p n [] h = tt
dependency_edges-AllTargets p n (d ∷ ds) h =
    (rw (h, eq_refl (package_node_id p)) refl, dependency_edges-AllTargets p n ds h)

package_part-AllTargets :
    (ps : List WorkPackage) → AllTargets (package_part ps).0 (package_part ps).1
unfolding package_part
package_part-AllTargets [] = tt
package_part-AllTargets (p ∷ ps) =
    AllTargets-append (node_of_package p ∷ []) (package_part ps).0 (package_edges p)
      (package_part ps).1
      (
        rw (eq_refl (package_node_id p)) refl,
        dependency_edges-AllTargets p (node_of_package p) p.depends_on refl,
      )
      (package_part-AllTargets ps)

job_edges-AllTargets :
    (j : Job) (n : Node) (ref : Option String)
    → node_id n ≡ job_node_id j
    → AllTargets (n ∷ []) (job_edges j ref)
job_edges-AllTargets j n none h = tt
job_edges-AllTargets j n (some ref) h =
    if_both (AllTargets (n ∷ [])) (str_eq ref "") (λ _. tt)
      (λ _. (rw (h, eq_refl (job_node_id j)) refl, tt))

job_part-AllTargets : (js : List Job) → AllTargets (job_part js).0 (job_part js).1
unfolding job_part
job_part-AllTargets [] = tt
job_part-AllTargets (j ∷ js) =
    AllTargets-append (node_of_job j ∷ []) (job_part js).0 (job_edges j j.work_package_id)
      (job_part js).1 (job_edges-AllTargets j (node_of_job j) j.work_package_id refl)
      (job_part-AllTargets js)

-- Every edge of the mission graph ends in one of the graph's nodes, also where more than 2000 jobs are
-- cut off: no edge is drawn to a job that has no node.
pub build_mission_graph-AllTargets :
    (run : Run) (project : Project) (jobs : List Job) (waves : List Wave)
    (packages : List WorkPackage)
    → let g = build_mission_graph run project jobs waves packages in AllTargets g.nodes g.edges
unfolding build_mission_graph
build_mission_graph-AllTargets run project jobs waves packages =
    let ws = wave_part run (sort_waves waves) in
    let ps = package_part packages in
    let js = job_part (take_first 2000 jobs) in
    let first_node =
      run_node (run_node_id run) (text_or project.name run.id) run.status run.checkpoint in
    AllTargets-cons first_node (ws.0 ++ (ps.0 ++ js.0)) (ws.1 ++ (ps.1 ++ js.1)) (
      AllTargets-append ws.0 (ps.0 ++ js.0) ws.1 (ps.1 ++ js.1)
        (wave_part-AllTargets run (sort_waves waves))
        (AllTargets-append ps.0 js.0 ps.1 js.1 (package_part-AllTargets packages)
          (job_part-AllTargets (take_first 2000 jobs))))
