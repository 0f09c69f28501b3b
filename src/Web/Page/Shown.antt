-- ===== src/Web/Page/Shown.antt =====
-- What the page shows of a plugin.
use tu_thesis.Base.{
  ℕ, ◌≡◌, ◌∙◌, ap, sym, refl, false, ◌||◌, none, some, [], ◌∷◌, ◌++◌, append_assoc, arith, has,
}
use tu_thesis.Base.Int.{ℤ, negsuc, same_int}
use tu_thesis.Text.Bytes.{Bytes, bytes}
use tu_thesis.Text.Search.{find}
use tu_thesis.Exec.{ok}
use tu_thesis.Map
use tu_thesis.Map.{Map, int_key}
use tu_thesis.World.{World}
use tu_thesis.Plugin
use tu_thesis.Plugin.{Plugin}
use tu_thesis.PluginConfigurator.{PluginConfigurator, on_plugin}
use tu_thesis.Web.Socket.{Request}
use tu_thesis.Web.PluginId.{plugin_id}
use tu_thesis.Web.Replace.{regex_replace}
use tu_thesis.Web.Replace.Plain.{replace_mark, find_nothing, find_other_mark}
use tu_thesis.Web.Page.{frame, form, fill_in, fill_in_safely, generate_html_message}

has-append : (c : ℕ) (xs ys : Bytes) → has c (xs ++ ys) ≡ (has c xs || has c ys)
has-append c [] ys = refl
has-append c (x ∷ xs) ys = ground (arith, has-append c xs ys)

no_dollar :
    (xs ys : Bytes) → has b'$' xs ≡ false → has b'$' ys ≡ false → has b'$' (xs ++ ys) ≡ false
no_dollar xs ys hx hy = rw has-append (rw (hx, hy) refl)

-- A page with the two marks, and what they are replaced by: no dollar sign but those of the marks.
pub record Page : Type 0 where
  pub before : Bytes
  pub between : Bytes
  pub behind : Bytes
  pub no_before : has b'$' before ≡ false
  pub no_between : has b'$' between ≡ false
  pub no_behind : has b'$' behind ≡ false

abbrev marked : Page → Bytes
marked page = page.between ++ (bytes "$CONFIGURATION" ++ page.behind)

-- The text of the page, before and after the marks are replaced.
abbrev pub with_marks : Page → Bytes
with_marks page = page.before ++ (bytes "$PLUGIN_NAME" ++ marked page)

abbrev pub filled : Page → Bytes → Bytes → Bytes
filled page name conf = page.before ++ (name ++ (page.between ++ (conf ++ page.behind)))

module _ (page : Page) (name conf : Bytes) (no_name : has b'$' name ≡ false)
    (no_conf : has b'$' conf ≡ false) where
  other_mark : find (bytes "$PLUGIN_NAME") (marked page) ≡ none
  unfolding bytes
  other_mark =
      find_other_mark b'$' b'P' b'C' (bytes "LUGIN_NAME") page.between
        (bytes "ONFIGURATION" ++ page.behind) page.no_between refl page.no_behind

  with_name :
      regex_replace (with_marks page) (bytes "$PLUGIN_NAME") name
      ≡ page.before ++ (name ++ marked page)
  unfolding bytes
  with_name =
      replace_mark (bytes "PLUGIN_NAME") name page.before (marked page) page.no_before no_name
        other_mark

  joined :
      (last : Bytes)
      → (page.before ++ (name ++ page.between)) ++ last
        ≡ page.before ++ (name ++ (page.between ++ last))
  joined last =
      append_assoc page.before (name ++ page.between) last
      ∙ ap (λ t. page.before ++ t) (append_assoc name page.between last)

  with_conf :
      regex_replace (page.before ++ (name ++ marked page)) (bytes "$CONFIGURATION") conf
      ≡ filled page name conf
  unfolding bytes
  with_conf =
      ap (λ t. regex_replace t (bytes "$CONFIGURATION") conf)
        (sym (joined (bytes "$CONFIGURATION" ++ page.behind)))
      ∙ replace_mark (bytes "CONFIGURATION") conf (page.before ++ (name ++ page.between))
          page.behind
          (no_dollar page.before (name ++ page.between) page.no_before
            (no_dollar name page.between no_name page.no_between))
          no_conf (find_nothing b'$' (bytes "CONFIGURATION") page.behind page.no_behind)
      ∙ joined (conf ++ page.behind)

-- The answer to a request that names a plugin, if the files hold the two marks once, in their order, and
-- no dollar sign stands elsewhere, in the name or in the configuration: the page with the plugin's
-- name and the form of its configuration in the places of the marks. The number is not -1.
pub page_shows :
    (page : Page) (r : Request) (id : ℤ) (p p' : Plugin) (conf : Map Bytes Bytes)
    (c : PluginConfigurator) (w w' : World)
    → frame c w ≡ with_marks page
    → plugin_id r ≡ ok id
    → same_int id (negsuc 0) ≡ false
    → Map.lookup id c.plugins ≡ some p
    → Plugin.get_configuration (p, w) ≡ (ok conf, (p', w'))
    → has b'$' (Plugin.get_name p') ≡ false
    → has b'$' (form id conf) ≡ false
    → (generate_html_message r (c, w)).0 ≡ ok (filled page (Plugin.get_name p') (form id conf))
unfolding generate_html_message fill_in_safely fill_in on_plugin
page_shows page r id p p' conf c w w' marks named there found shown no_name no_conf =
    rw (named, there, found, shown)
      (let name = Plugin.get_name p' in
        ap ok (
          ap
            (λ t.
              regex_replace (regex_replace t (bytes "$PLUGIN_NAME") name) (bytes "$CONFIGURATION")
                (form id conf))
            marks
          ∙ ap (λ t. regex_replace t (bytes "$CONFIGURATION") (form id conf))
              (with_name page name (form id conf) no_name no_conf)
          ∙ with_conf page name (form id conf) no_name no_conf))
