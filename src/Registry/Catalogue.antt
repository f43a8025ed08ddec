-- ===== src/Registry/Catalogue.antt =====
-- The registry of the program: `FEATURE_REGISTRY` and its rollout policies.
use jou_tak_web.Prelude.{String, Bool, true, false, none, some, List, [], ◌∷◌}
use jou_tak_web.Prelude.Assoc.{Dict}
use jou_tak_web.Values.{Value, bool, str}
use jou_tak_web.Registry.{RolloutPolicy, Spec, guided_rollout_audiences}

abbrev pub versions_variants : List Value
versions_variants = str "legacy" ∷ str "v2" ∷ []

abbrev pub design_tester_group_slug : String
design_tester_group_slug = "website-design-testers"

abbrev pub boolean_rollout_policy : RolloutPolicy
boolean_rollout_policy = record {
  allowed_audiences = guided_rollout_audiences;
  required_group_slug = none;
  guarded_value = none;
  safe_default = none;
  allow_staff_preview = true;
  allow_public = true;
  allow_sticky = true;
  variant_labels = (bool true, "Включено (true)") ∷ (bool false, "Выключено (false)") ∷ [];
}

abbrev pub design_rollout_policy : RolloutPolicy
design_rollout_policy = record {
  allowed_audiences = "group" ∷ [];
  required_group_slug = some design_tester_group_slug;
  guarded_value = some (str "v2");
  safe_default = some (str "legacy");
  allow_staff_preview = true;
  allow_public = false;
  allow_sticky = false;
  variant_labels = (str "legacy", "Текущая версия (legacy)") ∷ (str "v2", "Новая версия (v2)") ∷ [];
}

abbrev pub contact_page_rollout_policy : RolloutPolicy
contact_page_rollout_policy = record design_rollout_policy {
  allowed_audiences = "group" ∷ "everyone" ∷ [];
  allow_public = true;
}

-- The fields that the six design entries share.
abbrev pub design_spec : String → String → String → String → RolloutPolicy → Spec
design_spec title page description visual_impact policy = record {
  title = title;
  kind = "variant";
  default_env = none;
  default_fallback = str "legacy";
  variants = versions_variants;
  pages = page ∷ [];
  sticky = false;
  description = description;
  visual_impact = visual_impact;
  rollout_policy = some policy;
}

-- The fields that the three boolean entries share.
abbrev boolean_spec : String → String → Bool → String → String → String → Spec
boolean_spec title env fallback page description visual_impact = record {
  title = title;
  kind = "boolean";
  default_env = some env;
  default_fallback = bool fallback;
  variants = bool true ∷ bool false ∷ [];
  pages = page ∷ [];
  sticky = false;
  description = description;
  visual_impact = visual_impact;
  rollout_policy = some boolean_rollout_policy;
}

unfoldable pub feature_registry : Dict Spec
feature_registry =
    (
      "site_itmocraft_page_version",
      design_spec "Страница ITMOcraft" "itmocraft" "Переключает основную страницу ITMOcraft."
          "Полностью заменяет содержимое страницы ITMOcraft." design_rollout_policy,
    )
    ∷ (
      "site_joutak_page_version",
      design_spec "Страница JouTak" "joutak" "Переключает страницу продукта JouTak."
          "Полностью заменяет содержимое страницы JouTak." design_rollout_policy,
    )
    ∷ (
      "site_minigames_page_version",
      design_spec "Страница мини-игр" "minigames" "Переключает страницу мини-игр."
          "Полностью заменяет содержимое страницы мини-игр." design_rollout_policy,
    )
    ∷ (
      "site_contact_page_version",
      design_spec "Страница контактов" "contact" "Переключает страницу контактов."
          "Полностью заменяет содержимое страницы контактов." contact_page_rollout_policy,
    )
    ∷ (
      "site_header_version",
      design_spec "Шапка сайта" "*" "Переключает общую шапку сайта."
          "Заменяет шапку на продуктовых страницах." design_rollout_policy,
    )
    ∷ (
      "site_footer_version",
      design_spec "Подвал сайта" "*" "Переключает общий подвал сайта."
          "Заменяет подвал на продуктовых страницах." design_rollout_policy,
    )
    ∷ (
      "profile_personalization_ui",
      boolean_spec "Персонализация профиля" "FF_PROFILE_PERSONALIZATION_UI" true "account"
          "Показывает интерфейс персонализации профиля."
          "Показывает или скрывает подсказки персонализации.",
    )
    ∷ (
      "profile_personalization_interstitial",
      boolean_spec "Экран персонализации после входа" "FF_PROFILE_PERSONALIZATION_INTERSTITIAL" true
          "account" "Показывает экран персонализации после входа."
          "Показывает полноэкранное предложение заполнить профиль.",
    )
    ∷ (
      "profile_personalization_enforce",
      boolean_spec "Обязательное заполнение профиля" "FF_PROFILE_PERSONALIZATION_ENFORCE" false "*"
          "Требует заполнить профиль для защищённых действий."
          "Может блокировать действия до заполнения профиля.",
    )
    ∷ []

abbrev pub personalization_flag_keys : List String
personalization_flag_keys =
    "profile_personalization_ui" ∷ "profile_personalization_interstitial"
    ∷ "profile_personalization_enforce" ∷ []
