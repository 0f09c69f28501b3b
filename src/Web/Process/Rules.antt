-- ===== src/Web/Process/Rules.antt =====
-- What a request leaves true: whatever the methods of the plugin that it names leave true.
use tu_thesis.Base.{◌≡◌, refl}
use tu_thesis.Base.Int.{ℤ, negsuc, same_int}
use tu_thesis.Text.Bytes.{Bytes}
use tu_thesis.Exec.{
  out_of_range, invalid_argument, runtime_error, Exec, Exception, Outcome, ok, throw, undefined,
}
use tu_thesis.Exec.Preserves.{
  if_Preserves, Preserves, bind-Preserves, lift-Preserves, pure-Preserves, raise-Preserves,
  try-Preserves,
}
use tu_thesis.Map.{int_key}
use tu_thesis.World.{World}
use tu_thesis.FileConfigurator.{Reader}
use tu_thesis.Plugin
use tu_thesis.Plugin.{Plugin}
use tu_thesis.PluginConfigurator.{PluginConfigurator, on_plugin}
use tu_thesis.Web.Socket.{Request}
use tu_thesis.Web.PluginId.{plugin_id}
use tu_thesis.Web.Page.{
  describe, fill_in, fill_in_safely, without_form, with_configuration, generate_html_message, frame,
}
use tu_thesis.Web.Process.{unset_id, post_to, configure_plugin, post, process_request}

-- A request keeps what its plugin's methods keep: the rules of the page and of `POST`.
module _ (Q : PluginConfigurator × World → Type 0) (r : Request)
    (each : (A : Type 0) (id : ℤ) (m : Exec (Plugin × World) A)
      → plugin_id r ≡ ok id
      → Preserves Q (on_plugin id m)) where
  fill_in-Preserves : (html : Bytes) (id : ℤ) → plugin_id r ≡ ok id → Preserves Q (fill_in html id)
  unfolding fill_in
  fill_in-Preserves html id e =
      if_Preserves (same_int id (negsuc 0)) _ _ (pure-Preserves _)
        (bind-Preserves _ _ (each _ id describe e) (λ _. pure-Preserves _))

  without_form-Preserves : (html : Bytes) (x : Exception) → Preserves Q (without_form html x)
  without_form-Preserves html (out_of_range _) = pure-Preserves _
  without_form-Preserves html (invalid_argument _) = raise-Preserves _
  without_form-Preserves html (runtime_error _) = raise-Preserves _

  page-Preserves : Preserves Q (generate_html_message r)
  unfolding generate_html_message fill_in_safely
  page-Preserves = record {
    holds = λ (c, w) q.
        (bind-Preserves (fill_in_safely r (frame c w)) with_configuration
            (try-Preserves _ _ (lift-Preserves (plugin_id r) _ (fill_in-Preserves (frame c w)))
              (without_form-Preserves (frame c w)))
            (λ _. pure-Preserves _)).holds
          (c, w) q;
  }

  module _ (open_reader : Bytes → Reader) where
    unset_id-Preserves : (x : Exception) → Preserves Q (unset_id open_reader x)
    unset_id-Preserves (invalid_argument _) = pure-Preserves _
    unset_id-Preserves (out_of_range _) = record { holds = λ s q. q }
    unset_id-Preserves (runtime_error _) = record { holds = λ s q. q }

    post_to-Preserves : (o : Outcome ℤ) → plugin_id r ≡ o → Preserves Q (post_to open_reader r o)
    unfolding configure_plugin
    post_to-Preserves (ok id) e =
        try-Preserves _ _
          (if_Preserves (same_int id (negsuc 0)) _ _ (pure-Preserves _)
            (each _ id (Plugin.configure open_reader r.fields) e))
          (λ _. pure-Preserves _)
    post_to-Preserves (throw x) e = unset_id-Preserves x
    post_to-Preserves undefined e = record { holds = λ s q. q }

    post-Preserves : Preserves Q (post open_reader r)
    unfolding post
    post-Preserves = post_to-Preserves (plugin_id r) refl

    pub process_request-Preserves : Preserves Q (process_request open_reader r)
    unfolding process_request
    process_request-Preserves =
        bind-Preserves _ _ (if_Preserves _ _ _ post-Preserves (pure-Preserves _))
          (λ _. page-Preserves)
