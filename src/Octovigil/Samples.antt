-- ===== src/Octovigil/Samples.antt =====
-- An environment that the tests share, and a User who may do everything.
use octelium.Base.{String, true, false, Option, some, [], ◌∷◌, ok, err, not_found, ◌==◌}
use octelium.Base.Sort.{insertion_sort_func}
use octelium.Corev1.Policy.{Condition, Effect, InlinePolicy}
use octelium.Corev1.Resources.{User}
use octelium.Celengine.{Engine}
use octelium.Httputils.{Addr}
use octelium.Octovigil.Env.{Env}
use octelium.Samples.{a_user}

abbrev pub engine : Engine
engine = record { cel = λ s i. ok (s == "yes"); rego = λ s i. ok [] }

-- A resource server that has nothing.
abbrev pub env : Env
env = record {
  engine = engine;
  backend = record {
    fetch_policy = λ n. err not_found;
    fetch_namespace = λ n. err not_found;
    fetch_user = λ n. err not_found;
    fetch_device = λ n. err not_found;
    fetch_group = λ n. err not_found;
    fetch_service = λ n. err not_found;
  };
  convert_attrs = λ a. ok "{}";
  convert_ctx = λ c. ok "{}";
  sort_func = insertion_sort_func;
  now = 5;
}

abbrev pub allow_all : InlinePolicy
allow_all = record {
  name = "allow-all";
  spec = record {
    is_disabled = false;
    attrs = "{}";
    rules =
        record {
          name = "all";
          priority = 0;
          effect = Effect.allow;
          condition = Condition.match_any true;
        }
        ∷ [];
    enforcement_rules = [];
  };
}

abbrev pub admin : User
admin = record a_user {
  authorization = some (record { policies = []; inline_policies = allow_all ∷ [] });
}

abbrev pub parse : String → Option Addr
parse s = some (record {
  text = s;
  is_private = true;
  is_loopback = false;
  is_unspecified = false;
  is_link_local_unicast = false;
  is_link_local_multicast = false;
})
