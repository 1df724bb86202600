-- ===== src/Driver/Readings/Answers.antt =====
-- What `HandleReadCommands` of internal/driver/wiresinkdriver.go answers.
use device_wiresink_go.Prelude.{
  ◌≡◌, inl, inr, sym, subst, ◌∙◌, arith, List, [], ◌∷◌, ◌++◌, append-nil, append_assoc, Bool, true,
  false, Bool-cases, some, Option-cases, Text, Assoc, codes, text_eq, lookup,
}
use device_wiresink_go.Prelude.Outcome.{Result-cases, Result, ok}
use device_wiresink_go.Value.{Value, topology}
use device_wiresink_go.State.{Gateway}
use device_wiresink_go.Strconv.{Runtime}
use device_wiresink_go.Config.Values.{get_device_value}
use device_wiresink_go.Driver.Coerce.{coerce_to}
use device_wiresink_go.Driver.Readings.{
  CommandValue, CommandRequest, read_one, read_loop, handle_read_commands,
}

-- What the driver needs of `NewCommandValue`: what it returns holds what it is given.
abbrev pub Keeps : (Text → Text → Value → Result CommandValue) → Type 0
Keeps new_command_value =
    (name type : Text) (v : Value) (cv : CommandValue)
    → new_command_value name type v ≡ ok cv
    → cv ≡ record { resource = name; type = type; value = v }

module _ (r : Runtime) (device : Text) (g : Gateway) where
  -- What a command value holds, by whether the topology is asked for: the nodes that were decoded
  -- last, as an object, or the value of the resource in the value table, converted to the type that
  -- is asked for, under this type.
  abbrev pub Holds : Bool → CommandRequest → CommandValue → Type 0
  Holds true req cv = (cv.type ≡ codes "Object") × (cv.value ≡ topology g.topo_list)
  Holds false req cv =
      (cv.type ≡ req.type)
      × ((val : Value) × (get_device_value device req.resource g.values ≡ some val)
          × (coerce_to r val req.type ≡ ok cv.value))

  -- The answer to a request.
  abbrev pub Answers : CommandRequest → CommandValue → Type 0
  Answers req cv =
      (cv.resource ≡ req.resource) × Holds (text_eq req.resource (codes "topologyDiagram")) req cv

  -- One answer for each request, in their order.
  pub AllAnswered : List CommandRequest → List CommandValue → Type 0
  AllAnswered [] [] = Unit {0}
  AllAnswered (req ∷ reqs) (cv ∷ cvs) = Answers req cv × AllAnswered reqs cvs
  AllAnswered reqs cvs = ⊥

module _ (r : Runtime) (new_command_value : Text → Text → Value → Result CommandValue)
    (device : Text) (g : Gateway) (values : Assoc Value)
    (present : lookup device g.values ≡ some values) where
  read_one-Answers :
      (req : CommandRequest) (cv : CommandValue)
      → Keeps new_command_value
      → read_one r new_command_value device values g.topo_list req ≡ ok cv
      → Answers r device g req cv
  unfolding read_one get_device_value
  read_one-Answers req cv keeps e =
      elim (Bool-cases (text_eq req.resource (codes "topologyDiagram"))) [
        | inl same ↦
            let kept =
              keeps req.resource (codes "Object") (topology g.topo_list) cv (ground arith) in
            (
              ground arith,
              subst (λ b. Holds r device g b req cv) (sym same) (ground arith, ground arith),
            )
        | inr other ↦ elim (Option-cases (lookup req.resource values)) [
          | inl missing ↦ absurd (ground arith)
          | inr (val, held) ↦ elim (Result-cases (coerce_to r val req.type)) [
            | inr (problem, bad) ↦ absurd (ground arith)
            | inl (w, good) ↦
                let kept = keeps req.resource req.type w cv (ground arith) in
                (
                  ground arith,
                  subst (λ b. Holds r device g b req cv) (sym other)
                      (ground arith, (val, ground arith, ground arith)),
                )
          ]
        ]
      ]

  read_loop-Answers :
      (reqs : List CommandRequest) (res out : List CommandValue)
      → Keeps new_command_value
      → read_loop r new_command_value device values g.topo_list reqs res ≡ ok out
      → (cvs : List CommandValue) × (out ≡ res ++ cvs) × AllAnswered r device g reqs cvs
  unfolding read_loop AllAnswered
  read_loop-Answers [] res out keeps e = ([], ground (arith, append-nil res), tt)
  read_loop-Answers (req ∷ reqs) res out keeps e =
      elim (Result-cases (read_one r new_command_value device values g.topo_list req)) [
        | inr (problem, bad) ↦ absurd (ground arith)
        | inl (cv, good) ↦
            let (cvs, same, answered) =
              read_loop-Answers reqs (res ++ cv ∷ []) out keeps (ground arith) in
            (
              cv ∷ cvs,
              same ∙ append_assoc res (cv ∷ []) cvs,
              (read_one-Answers req cv keeps good, answered),
            )
      ]

-- With an SDK whose command values hold what they are made of: where `HandleReadCommands` returns
-- no error, it answers each request once, in the order of the requests: a request for
-- `topologyDiagram` with the topology that was decoded last, of type Object, and every other
-- request with the value of the resource in the value table, converted to the type that is asked
-- for, under this type.
pub handle_read_commands-AllAnswered :
    (r : Runtime) (new_command_value : Text → Text → Value → Result CommandValue) (device : Text)
    (reqs : List CommandRequest) (g : Gateway) (cvs : List CommandValue)
    → Keeps new_command_value
    → handle_read_commands r new_command_value device reqs g ≡ ok cvs
    → AllAnswered r device g reqs cvs
unfolding handle_read_commands
handle_read_commands-AllAnswered r new_command_value device reqs g cvs keeps e =
    elim (Option-cases (lookup device g.values)) [
      | inl missing ↦ absurd (ground arith)
      | inr (values, present) ↦
          let (all, same, answered) =
            read_loop-Answers r new_command_value device g values present reqs [] cvs keeps
              (ground arith) in
          subst (AllAnswered r device g reqs) (sym same) answered
    ]
