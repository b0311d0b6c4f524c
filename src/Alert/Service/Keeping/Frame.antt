-- ===== src/Alert/Service/Keeping/Frame.antt =====
-- alert/service.go: an evaluation changes states, published values and nothing of the configuration.
use go_scada.Base.{◌≡◌, refl, if_cases, arith}
use go_scada.Alert.Service.{Environment, Service}
use go_scada.Alert.Service.Evaluating.{send}
use go_scada.Alert.Service.Keeping.{Keeps}

-- Nothing but states, published values, dirty marks and the outside calls differs.
pub record Framed (s t : Service) : Type 0 where
  pub properties : t.properties ≡ s.properties
  pub definitions : t.definitions ≡ s.definitions
  pub by_output : t.by_output ≡ s.by_output
  pub parents : t.parents ≡ s.parents

pub Framed-refl : (s : Service) → Framed s s
Framed-refl s = record { properties = refl; definitions = refl; by_output = refl; parents = refl }

same_frame :
    (s t u : Service)
    → u.properties ≡ t.properties
    → u.definitions ≡ t.definitions
    → u.by_output ≡ t.by_output
    → u.parents ≡ t.parents
    → Framed s t
    → Framed s u
same_frame s t u a b c d h = ground (arith, h.properties, h.definitions, h.by_output, h.parents)

pub Framed-Keeps : (env : Environment) (s : Service) → Keeps env (Framed s)
unfolding send
Framed-Keeps env s = record {
  sends = λ subject encoded t h.
      if_cases (Framed s) (env.publishes t.calls subject encoded) _ _
        (λ _. same_frame s t _ refl refl refl refl h) (λ _. same_frame s t _ refl refl refl refl h);
  ticks = λ t h. same_frame s t _ refl refl refl refl h;
  stores = λ subject state t v h. same_frame s t _ refl refl refl refl h;
}
