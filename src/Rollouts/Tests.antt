-- ===== src/Rollouts/Tests.antt =====
-- A draft that is created and started.

use jou_tak_web.Prelude.{ℕ, String, ◌≡◌, ◌≢◌, refl, true, false, none, some, List, [], ◌∷◌, All}
use jou_tak_web.Values.{bool}
use jou_tak_web.Registry.{Site, Spec}
use jou_tak_web.Features.Model.{RuleType}
use jou_tak_web.Rollouts.Model.{
  RolloutRule, Definition, Outcome, done, refused, not_a_draft, Actor, Fields, switched,
}
use jou_tak_web.Rollouts.Create.{RolloutForm, create_rollout}
use jou_tak_web.Rollouts.Switch.{start_rollout, stop_rollout}
use jou_tak_web.Rollouts.Disjoint.{IsDisjoint}
use jou_tak_web.Rollouts.Steps.{Reaches, here, then_, creates, starts, stops}
use jou_tak_web.Rollouts.Steps.Kept.{Reaches-IsDisjoint, Reaches-IsAllowed, IsAllowed}
use jou_tak_web.Rollouts.Steps.Once.{start_rollout-once}

abbrev flag : Spec
flag = record {
  title = "Flag";
  kind = "boolean";
  default_env = none;
  default_fallback = bool false;
  variants = bool true ∷ bool false ∷ [];
  pages = "*" ∷ "home" ∷ [];
  sticky = false;
  description = "";
  visual_impact = "";
  rollout_policy = none;
}

abbrev site : Site
site = record { registry = ("flag", flag) ∷ []; setting = λ name. none }

abbrev fields : Fields
fields = record { clean_fields = λ r. true }

abbrev admin : Actor
admin = record { has_perm = λ perm. true }

abbrev definitions : List Definition
definitions = record { key = "flag"; active = true } ∷ []

abbrev form : RolloutForm
form = record {
  feature = "flag";
  page = some "home";
  audience = "percentage";
  value = bool true;
  target_groups = [];
  target_users = [];
  percentage = some 25;
  enabled = false;
  reason = "a first try";
  name = some "Try";
}

abbrev draft : RolloutRule
draft = record {
  feature = "flag";
  name = "Try";
  priority = 100;
  rule = record {
    pk = 7;
    rule_type = RuleType.percentage;
    value = "true";
    page = "home";
    actor_ids = [];
    group_ids = [];
    percentage = some 25;
    enabled = false;
  };
  history = false ∷ [];
}

abbrev running : RolloutRule
running = switched true draft

abbrev ended : RolloutRule
ended = switched false running

created : create_rollout site fields definitions 7 form admin [] ≡ done (draft, true, draft ∷ [])
unfolding create_rollout jou_tak_web.Prelude.Assoc.lookup jou_tak_web.Registry.is_audience_allowed
    jou_tak_web.Registry.get_rollout_policy jou_tak_web.Registry.get_variant_choices
    jou_tak_web.Registry.canonical_variant_token jou_tak_web.Prelude.Text.strip
    jou_tak_web.Rollouts.Model.clean_rule jou_tak_web.Registry.is_valid_override_value
    jou_tak_web.Values.normalized jou_tak_web.Prelude.Text.lower
created = refl

retried :
    create_rollout site fields definitions 8 form admin (draft ∷ [])
    ≡ done (draft, false, draft ∷ [])
unfolding create_rollout jou_tak_web.Prelude.Assoc.lookup jou_tak_web.Registry.is_audience_allowed
    jou_tak_web.Registry.get_rollout_policy jou_tak_web.Registry.get_variant_choices
    jou_tak_web.Registry.canonical_variant_token jou_tak_web.Prelude.Text.strip
retried = refl

started :
    start_rollout site fields definitions [] 7 "works well" admin (draft ∷ [])
    ≡ done (running, running ∷ [])
unfolding start_rollout jou_tak_web.Prelude.Assoc.lookup jou_tak_web.Registry.is_audience_allowed
    jou_tak_web.Registry.get_rollout_policy jou_tak_web.Registry.get_variant_choices
    jou_tak_web.Registry.canonical_variant_token jou_tak_web.Prelude.Text.strip
    jou_tak_web.Rollouts.Model.clean_rule jou_tak_web.Registry.is_valid_override_value
    jou_tak_web.Values.normalized jou_tak_web.Prelude.Text.lower
started = refl

stopped : stop_rollout site fields definitions 7 "the end" (running ∷ []) ≡ done (ended, ended ∷ [])
unfolding stop_rollout jou_tak_web.Prelude.Assoc.lookup jou_tak_web.Prelude.Text.strip
    jou_tak_web.Rollouts.Model.clean_rule jou_tak_web.Registry.is_valid_override_value
    jou_tak_web.Values.normalized jou_tak_web.Prelude.Text.lower
stopped = refl

run : Reaches site fields [] (running ∷ [])
run =
    then_ (running ∷ [])
      (then_ (draft ∷ []) here (creates definitions 7 form admin draft true refl created))
      (starts definitions [] 7 "works well" admin running started)

Reaches-IsDisjoint_example : IsDisjoint (running ∷ [])
Reaches-IsDisjoint_example = Reaches-IsDisjoint site fields [] (running ∷ []) run tt

Reaches-IsAllowed_example : All (IsAllowed site fields) (running ∷ [])
Reaches-IsAllowed_example = Reaches-IsAllowed site fields [] (running ∷ []) run tt

start_rollout-once_example :
    start_rollout site fields definitions [] 7 "once more" admin (ended ∷ []) ≢ done (running, [])
start_rollout-once_example =
    start_rollout-once site fields definitions definitions [] [] 7 "works well" "once more" admin
      admin running running (draft ∷ []) (running ∷ []) (ended ∷ []) [] started
      (then_ (ended ∷ []) here (stops definitions 7 "the end" ended stopped))
