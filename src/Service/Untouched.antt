-- ===== src/Service/Untouched.antt =====
-- What the turns of the service leave alone: the caches of fragments, the completed SDUs, the map of
-- sensors and the values that they may not write; and what they put into `WriteChan`.
use device_wiresink_go.Prelude.{◌≡◌, refl, ap, subst, ◌∙◌, Bool, true, false, Text, text_eq}
use device_wiresink_go.Prelude.Outcome.{Outcome, done, ◌>>=◌, >>=-eq-done}
use device_wiresink_go.State.{Gateway}
use device_wiresink_go.Config.Values.{Values, get_device_value}
use device_wiresink_go.Config.Tool.Queue.{Fills, Fills-refl, Fills-trans, same-Fills}
use device_wiresink_go.Parser.Receive.Reject.{SameButPublished}

-- A set of resources, by device and name.
abbrev pub Resources : Type 0
Resources = Text → Text → Bool

abbrev pub nothing : Resources
nothing d r = false

abbrev pub anything : Resources
anything d r = true

abbrev pub of_device : Text → Resources
of_device device d r = text_eq device d

-- All resources but these read as before.
abbrev pub Leaves : Resources → Gateway → Gateway → Type 0
Leaves may g after =
    (d r : Text)
    → may d r ≡ false
    → get_device_value d r after.values ≡ get_device_value d r g.values

-- Two states with the same caches, completed SDUs and sensors, which read alike but for some
-- resources; `WriteChan` may have become fuller.
abbrev pub Alike : Resources → Gateway → Gateway → Type 0
Alike may g after =
    (after.caches ≡ g.caches)
    × (after.sdus ≡ g.sdus)
    × (after.mapping ≡ g.mapping)
    × Fills g after
    × Leaves may g after

pub Alike-refl : (may : Resources) (g : Gateway) → Alike may g g
Alike-refl may g = (refl, refl, refl, Fills-refl g, λ d r _. refl)

pub Alike-trans :
    (may : Resources) (g h k : Gateway) → Alike may g h → Alike may h k → Alike may g k
Alike-trans may g h k (a, b, c, p, u) (d, e, f, q, v) =
    (d ∙ a, e ∙ b, f ∙ c, Fills-trans g h k p q, λ x r off. v x r off ∙ u x r off)

-- Nothing but values has changed.
pub written-Alike :
    (may : Resources) (g : Gateway) (values : Values)
    → Leaves may g (record g { values = values })
    → Alike may g (record g { values = values })
written-Alike may g values leaves = (refl, refl, refl, Fills-refl g, leaves)

pub published-Alike :
    (may : Resources) (g after : Gateway) → SameButPublished g after → Alike may g after
published-Alike may g after e = (
  ap (λ (s : Gateway). s.caches) e,
  ap (λ (s : Gateway). s.sdus) e,
  ap (λ (s : Gateway). s.mapping) e,
  same-Fills g after (ap (λ (s : Gateway). s.at_commands) e)
      (ap (λ (s : Gateway). s.write_chan_closed) e),
  λ d r _. ap (λ (s : Gateway). get_device_value d r s.values) e,
)

-- Where it runs to the end, the end is alike.
abbrev pub Ends : Resources → Gateway → Outcome Gateway → Type 0
Ends may g o = (after : Gateway) → o ≡ done after → Alike may g after

pub done-injective : (g h : Gateway) → done g ≡ done h → g ≡ h
done-injective g h e = cc

pub done-Ends : (may : Resources) (g after : Gateway) → Alike may g after → Ends may g (done after)
done-Ends may g after h k e = subst (Alike may g) (done-injective after k e) h

pub >>=-Ends :
    {A : Type 0} (may : Resources) (g : Gateway) (o : Outcome A) (f : A → Outcome Gateway)
    → ((a : A) → o ≡ done a → Ends may g (f a))
    → Ends may g (o >>= f)
>>=-Ends may g o f h after e = let (a, reached, e') = >>=-eq-done o f e in h a reached after e'
