-- ===== src/Http/Config/Handlers.antt =====
-- The handlers of the configuration, by name.
use tube.Common.{Bytes, bytes_eq, bytes_eq_refl, false, ◌∷◌, Option, none, some, ◌≡◌, refl, ap}
use tube.Http.Config.{
  HandlerConfig, lookup, create_found, create_unless, create_handler_instance, get_handler_instance,
}

module _ {H F : Type 0} (create : F → Bytes → H) where
  -- What create_handler_instance answers is what get_handler_instance then finds by that name, and no
  -- other name finds anything else than before; a second creation by the same name, of whatever
  -- module, answers the same and changes nothing.
  pub create_handler_instance_lem :
      (name module_name : Bytes) (cfg : HandlerConfig H F)
      → (let r = create_handler_instance create name module_name cfg in
          (get_handler_instance create name r.1 ≡ r.0)
          × ((other : Bytes)
              → bytes_eq name other ≡ false
              → get_handler_instance create other r.1 ≡ get_handler_instance create other cfg)
          × ((h : H)
              → r.0 ≡ some h
              → (module' : Bytes)
              → create_handler_instance create name module' r.1 ≡ (some h, r.1)))
  unfolding create_handler_instance get_handler_instance
  create_handler_instance_lem name module_name cfg = unless (lookup name cfg.handlers) refl
    where
      unless :
          (o : Option H)
          → lookup name cfg.handlers ≡ o
          → (let r = create_unless create name module_name cfg o in
              (lookup name r.1.handlers ≡ r.0)
              × ((other : Bytes)
                  → bytes_eq name other ≡ false
                  → lookup other r.1.handlers ≡ lookup other cfg.handlers)
              × ((h : H)
                  → r.0 ≡ some h
                  → (module' : Bytes)
                  → create_unless create name module' r.1 (lookup name r.1.handlers)
                    ≡ (some h, r.1)))
      unless (some h) e =
          unfold create_unless in
          (e, (λ other differs. refl), λ g same module'. rw e (ap (λ o. (o, cfg)) same))
      unless none e = unfold create_unless in found (lookup module_name cfg.factories)
        where
          found :
              (f : Option F)
              → (let r = create_found create name cfg f in
                  (lookup name r.1.handlers ≡ r.0)
                  × ((other : Bytes)
                      → bytes_eq name other ≡ false
                      → lookup other r.1.handlers ≡ lookup other cfg.handlers)
                  × ((h : H)
                      → r.0 ≡ some h
                      → (module' : Bytes)
                      → create_unless create name module' r.1 (lookup name r.1.handlers)
                        ≡ (some h, r.1)))
          found none =
              unfold create_found in (e, (λ other differs. refl), λ h same. absurd (cc same))
          found (some f) =
              unfold create_found create_unless in
              (
                rw (bytes_eq_refl name),
                (λ other differs. rw differs),
                λ h same module'. rw (bytes_eq_refl name) (
                    ap (λ o. (o, record cfg { handlers = (name, create f name) ∷ cfg.handlers }))
                      same),
              )
