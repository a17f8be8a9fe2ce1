-- ===== src/ApiWeb/Submitting.antt =====
-- What api-web sends is a graph without cycles, and every request is answered.
use distributed_task_system.Common.{
  ◌>>=◌, String, ◌≡◌, refl, ap, ◌∙◌, inl, inr, Bool, true, false, Option, some, List, [], ◌∷◌,
  arith, str_eq, if◌then◌else◌, Bool-cases, mem, put, keys, mem-keys,
}
use distributed_task_system.Converters.Json.{Json, array, no_items}
use distributed_task_system.Converters.Tasks.{Task}
use distributed_task_system.Converters.Requests.{built}
use distributed_task_system.DagBuilder.{
  Builder, Result, fine, error, cycle, Request, new_builder, add_task, add_dependency,
  validate_cycle, build_proto,
}
use distributed_task_system.DagBuilder.Acyclic.{edge_in, Walk, validate_cycle_acyclic}
use distributed_task_system.DagBuilder.Fuel.{validate_cycle_ends}
use distributed_task_system.DagBuilder.Building.{
  IsClosed, kept_or, found_after, add_task-IsClosed, add_dependency-IsClosed,
}
use distributed_task_system.ApiWeb.{
  Thrown, Try, done, raise, and_then, of_builder, of_json, thrown_by, task_arguments,
  edge_arguments, parse_json_to_task, new_task, Numbers, add_json_task, add_json_tasks,
  add_json_edges, build_from_json, RpcEnd, await_resume, Answer, refusal, reply, submit_built,
  submit_builder, handle_dag_submit,
}
use distributed_task_system.ApiWeb.Access.{at_key, get_string, value_or, elements}

-- A property of the result, if there is one.
abbrev Holds : {A : Type 0} → (A → Type 0) → Try A → Type 0
Holds P (done a) = P a
Holds P (raise t) = Unit

and_then-Holds :
    {A B : Type 0} (P : A → Type 0) (Q : B → Type 0) (m : Try A) (f : A → Try B)
    → Holds P m
    → ((a : A) → P a → Holds Q (f a))
    → Holds Q (and_then m f)
and_then-Holds P Q (done a) f h each = each a h
and_then-Holds P Q (raise t) f h each = tt

any-Holds : {A : Type 0} (m : Try A) → Holds (λ _. Unit {0}) m
any-Holds (done a) = tt
any-Holds (raise t) = tt

of_builder-Holds :
    {T : Type 0} (b : Builder T) (r : Result (Builder T))
    → IsClosed (kept_or b r)
    → Holds IsClosed (of_builder r)
of_builder-Holds b (fine c) h = h
of_builder-Holds b (error f) h = tt

put-IsClosed :
    {T : Type 0} (k : String) (t : T) (b : Builder T)
    → IsClosed b
    → IsClosed (record b { tasks_map = put k t b.tasks_map })
put-IsClosed k t b h p c e =
    let (a, d, ne) = h p c e in
    (found_after k p t b.tasks_map a, found_after k c t b.tasks_map d, ne)

new_builder-Holds :
    (T : Type 0) (key : String) → Holds (IsClosed {Task = T}) (of_builder (new_builder key))
unfolding new_builder
new_builder-Holds T key = elim (Bool-cases (str_eq key "")) [
  | inl y ↦ rw y tt
  | inr z ↦ rw z (λ p c e. absurd (unfold edge_in in ground (arith, e)))
]

module _ {N D : Type 0} (numbers : Numbers N D) where
  add_json_task-Holds :
      (j : Json N) (b : Builder (Task N D))
      → IsClosed b
      → Holds IsClosed (add_json_task numbers j b)
  unfolding add_json_task
  add_json_task-Holds j b h =
      and_then-Holds (λ _. Unit {0}) IsClosed (of_json (task_arguments numbers j)) _ (any-Holds _)
        (λ a _.
          let t = new_task numbers a.0 a.1 a.2 in
          and_then-Holds IsClosed IsClosed (of_builder (add_task a.0 t b)) _
            (of_builder-Holds b _ (add_task-IsClosed a.0 t b h))
            (λ c k.
              and_then-Holds (λ _. Unit {0}) IsClosed (of_json (parse_json_to_task numbers j t)) _
                (any-Holds _) (λ u _. put-IsClosed a.0 u c k)))

  add_json_tasks-Holds :
      (js : List (Json N)) (b : Builder (Task N D))
      → IsClosed b
      → Holds IsClosed (add_json_tasks numbers js b)
  unfolding add_json_tasks
  add_json_tasks-Holds [] b h = h
  add_json_tasks-Holds (j ∷ js) b h =
      and_then-Holds IsClosed IsClosed (add_json_task numbers j b) _ (add_json_task-Holds j b h)
        (add_json_tasks-Holds js)

  add_json_edges-Holds :
      (js : List (Json N)) (b : Builder (Task N D))
      → IsClosed b
      → Holds IsClosed (add_json_edges numbers js b)
  unfolding add_json_edges
  add_json_edges-Holds [] b h = h
  add_json_edges-Holds (j ∷ js) b h =
      and_then-Holds (λ _. Unit {0}) IsClosed (of_json (edge_arguments numbers j)) _ (any-Holds _)
        (λ e _.
          and_then-Holds IsClosed IsClosed (of_builder (add_dependency e.0 e.1 b)) _
            (of_builder-Holds b _ (add_dependency-IsClosed e.0 e.1 b h)) (add_json_edges-Holds js))

  build_from_json-Holds : (j_body : Json N) → Holds IsClosed (build_from_json numbers j_body)
  unfolding build_from_json
  build_from_json-Holds j_body =
      and_then-Holds (λ _. Unit {0}) (IsClosed {Task = Task N D})
        (of_json (at_key "idempotency_key" j_body >>= get_string)) _ (any-Holds _)
        (λ key _.
          and_then-Holds (λ _. Unit {0}) (IsClosed {Task = Task N D})
            (of_json (at_key "tasks" j_body)) _ (any-Holds _)
            (λ j_tasks _.
              and_then-Holds (λ _. Unit {0}) (IsClosed {Task = Task N D})
                (of_json (value_or "edges" j_body (array no_items) (λ e. some e))) _ (any-Holds _)
                (λ j_edges _.
                  and_then-Holds IsClosed IsClosed (of_builder (new_builder key)) _
                    (new_builder-Holds (Task N D) key)
                    (λ b h.
                      and_then-Holds IsClosed IsClosed (add_json_tasks numbers (elements j_tasks) b)
                        _ (add_json_tasks-Holds (elements j_tasks) b h)
                        (add_json_edges-Holds (elements j_edges))))))

build_proto_found :
    {T P : Type 0} (f : T → P) (b : Builder T) (found : Bool)
    → validate_cycle b ≡ some found
    → build_proto f b ≡ some (if found then error cycle else fine (built f b))
unfolding build_proto
build_proto_found f b found e = rw e refl

module _ {N D Proto : Type 0} (numbers : Numbers N D) (task_to_proto : Task N D → Proto) where
  -- A builder whose edges join different tasks of it, and in which no task reaches itself.
  pub record IsDag (b : Builder (Task N D)) : Type 0 where
    pub closed : IsClosed b
    pub acyclic : (x : String) → mem x (keys b.tasks_map) ≡ true → ¬ Walk b.task_edges x x

  -- An answer that refuses the body and sends nothing, or one to the message of such a builder.
  pub data IsAnswer (submit : Request Proto → RpcEnd) : Answer Proto → Type 0 where
    refused : (t : Thrown) → IsAnswer submit (refusal numbers task_to_proto t)
    was_sent :
        (b : Builder (Task N D))
        → IsDag b
        → IsAnswer submit (
            reply numbers task_to_proto
              (built task_to_proto b)
              (await_resume (submit (built task_to_proto b))))

  -- Every body is answered: either it is refused with the status of an exception and nothing is sent,
  -- or what is sent is the request of a builder whose edges join different tasks of it and in which
  -- no task reaches itself, and the status is that of the call's response.
  pub handle_dag_submit-IsAnswer :
      (parse : String → Option (Json N)) (submit : Request Proto → RpcEnd) (body : String)
      → (a : Answer Proto) × (handle_dag_submit numbers task_to_proto parse submit body ≡ some a)
        × IsAnswer submit a
  unfolding handle_dag_submit
  handle_dag_submit-IsAnswer parse submit body =
      answered (and_then (of_json (parse body)) (build_from_json numbers)) (
        and_then-Holds (λ _. Unit {0}) IsClosed (of_json (parse body)) _ (any-Holds _)
          (λ j _. build_from_json-Holds numbers j))
    where
      sends :
          (b : Builder (Task N D)) (found : Bool)
          → IsClosed b
          → validate_cycle b ≡ some found
          → (a : Answer Proto) × (submit_built numbers task_to_proto submit
                (build_proto task_to_proto b)
              ≡ some a)
            × IsAnswer submit a
      sends b true h e = (
        refusal numbers task_to_proto (thrown_by cycle),
        ap (submit_built numbers task_to_proto submit) (build_proto_found task_to_proto b true e),
        refused (thrown_by cycle),
      )
      sends b false h e = (
        _,
        ap (submit_built numbers task_to_proto submit) (build_proto_found task_to_proto b false e),
        was_sent b (record { closed = h; acyclic = λ x k. validate_cycle_acyclic b x e k }),
      )

      answered :
          (m : Try (Builder (Task N D)))
          → Holds IsClosed m
          → (a : Answer Proto) × (submit_builder numbers task_to_proto submit m ≡ some a)
            × IsAnswer submit a
      answered (raise t) h = (refusal numbers task_to_proto t, refl, refused t)
      answered (done b) h =
          let (found, e) = validate_cycle_ends b (λ p c i. mem-keys c b.tasks_map ∙ (h p c i).1) in
          sends b found h e
