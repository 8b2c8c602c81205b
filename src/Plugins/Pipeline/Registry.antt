-- ===== src/Plugins/Pipeline/Registry.antt =====
-- The lists of hooks against the list of plugins.
use oastrix.Prelude.{
  ◌≡◌, refl, ◌∙◌, ap, Str, Option, none, some, List, [], ◌∷◌, ◌++◌, map, append-nil, append_assoc,
}
use oastrix.Plugins.Interfaces.{Hook, Plugin}
use oastrix.Plugins.Pipeline.{
  Pipeline, Named, add_hook, new_pipeline, register, list_plugins, plugin_info,
}

module _ {S : Type 0} where
  abbrev hook_of : {E : Type 0} → Str → Option (Hook S E) → List (Named S E)
  hook_of id none = []
  hook_of id (some hook) = (id, hook) ∷ []

  -- The hooks of one kind that a list of plugins has, in the order of the plugins.
  pub hooks_of : {E : Type 0} → (Plugin S → Option (Hook S E)) → List (Plugin S) → List (Named S E)
  hooks_of f [] = []
  hooks_of f (p ∷ ps) = hook_of p.id (f p) ++ hooks_of f ps

  pub register_all : List (Plugin S) → Pipeline S → Pipeline S
  register_all [] p = p
  register_all (plugin ∷ plugins) p = register_all plugins (register plugin p)

  add_hook-append :
      {E : Type 0} (id : Str) (h : Option (Hook S E)) (hs ks : List (Named S E))
      → add_hook id h hs ++ ks ≡ hs ++ (hook_of id h ++ ks)
  add_hook-append id none hs ks = refl
  add_hook-append id (some hook) hs ks = append_assoc hs ((id, hook) ∷ []) ks

  -- What registering plugins does to a pipeline.
  pub record Extends (ps : List (Plugin S)) (p p' : Pipeline S) : Type 0 where
    pub plugins : p'.plugins ≡ p.plugins ++ ps
    pub pre_store : p'.pre_store ≡ p.pre_store ++ hooks_of (λ q. q.on_pre_store) ps
    pub post_store : p'.post_store ≡ p.post_store ++ hooks_of (λ q. q.on_post_store) ps
    pub http_response : p'.http_response ≡ p.http_response ++ hooks_of (λ q. q.on_http_response) ps
    pub dns_response : p'.dns_response ≡ p.dns_response ++ hooks_of (λ q. q.on_dns_response) ps
    pub store : p'.store ≡ p.store

  register_all-Extends : (ps : List (Plugin S)) (p : Pipeline S) → Extends ps p (register_all ps p)
  unfolding register_all hooks_of register
  register_all-Extends [] p = record {
    plugins = rw append-nil;
    pre_store = rw append-nil;
    post_store = rw append-nil;
    http_response = rw append-nil;
    dns_response = rw append-nil;
    store = refl;
  }
  register_all-Extends (q ∷ qs) p =
      let ih = register_all-Extends qs (register q p) in
      record {
        plugins = ih.plugins ∙ append_assoc p.plugins (q ∷ []) qs;
        pre_store = ih.pre_store ∙ add_hook-append q.id q.on_pre_store p.pre_store _;
        post_store = ih.post_store ∙ add_hook-append q.id q.on_post_store p.post_store _;
        http_response =
            ih.http_response ∙ add_hook-append q.id q.on_http_response p.http_response _;
        dns_response = ih.dns_response ∙ add_hook-append q.id q.on_dns_response p.dns_response _;
        store = ih.store;
      }

  -- A new pipeline in which plugins are registered lists them in that order, and holds each
  -- hook that a plugin implements once, in the order of the plugins, and no others.
  pub register_all-new_pipeline :
      (ps : List (Plugin S))
      → (list_plugins (register_all ps new_pipeline) ≡ map plugin_info ps)
        × Extends ps new_pipeline (register_all ps new_pipeline)
  unfolding list_plugins new_pipeline
  register_all-new_pipeline ps =
      let e = register_all-Extends ps new_pipeline in (ap (map plugin_info) e.plugins, e)
