-- ===== src/Changes/Resources/Safety.antt =====
-- Which calls that change a cluster a handler can make.
use mathlib.Core.Path.{subst}
use rancher_ai_mcp.Prelude.{
  refuse_if-inv, String, ◌≡◌, ◌≢◌, refl, true, false, not, ◌&&◌, ◌||◌, Option, none, some, [], ◌∷◌,
  Result, ok, err, ok_injective, str_eq, str_ne, ne-str_eq, eq_iff, arith,
}
use rancher_ai_mcp.Confirm.{Bytes, Gate, require_token}
use rancher_ai_mcp.Confirm.Approval.{IsApproved}
use rancher_ai_mcp.Changes.{
  Gvr, Failure, manifest_unparsed, manifest_incomplete, kind_mismatch, name_mismatch, Change,
  create, patch, delete, Services, Unstructured,
}
use rancher_ai_mcp.Changes.Rules.{
  Silent, Gated, IsCleared, bypassed, confirmed, Silent-lift, Silent-then, Silent-issue,
  Silent-plan_reply, Gated-lift, Gated-then, Gated-perform, Gated-check,
}
use rancher_ai_mcp.Changes.Resources.{
  DeleteParams, CreateParams, UpdateParams, delete_operation, delete_summary, delete_change,
  delete_approved, delete_kubernetes_resource, delete_kubernetes_resource_plan, update_operation,
  update_summary, update_change, update_approved, update_kubernetes_resource,
  update_kubernetes_resource_plan, check_manifest, parse_create_manifest, create_operation,
  create_summary, create_approved, create_kubernetes_resource, create_kubernetes_resource_plan,
}

module _ {Object : Type 0} (s : Services Object) where
  delete_approved-Gated :
      (p : DeleteParams) (gvr : Gvr)
      → Gated (λ g c. c ≡ delete_change s p gvr) (delete_approved s p gvr)
  unfolding delete_approved
  delete_approved-Gated p gvr =
      Gated-then (λ g c. c ≡ delete_change s p gvr)
        (s.get_resource_interface p.namespace p.cluster gvr) _
        (Gated-perform s (delete_change s p gvr) _
          (λ a. Silent-lift (s.create_response_any _) _ (λ text g. refl)))

  abbrev pub IsDeletion : DeleteParams → Gate → Change Object → Type 0
  IsDeletion p g c =
      (gvr : Gvr) × (s.resolve_gvr p.cluster p.kind p.api_version ≡ ok gvr)
      × (c ≡ delete p.namespace p.cluster gvr p.name)
      × ((require_token s.codec g (delete_operation p) p.confirmation_token s.now s.now').1 ≡ ok tt)
      × IsApproved s.elicit (delete_summary s p gvr) p.name

  pub delete_kubernetes_resource-Gated :
      (p : DeleteParams) → Gated (IsDeletion p) (delete_kubernetes_resource s p)
  unfolding delete_kubernetes_resource
  delete_kubernetes_resource-Gated p =
      Gated-lift _ (s.resolve_gvr p.cluster p.kind p.api_version) _ (λ gvr e.
        Gated-check (λ c. c ≡ delete_change s p gvr) _ s (delete_operation p) p.confirmation_token
          (delete_summary s p gvr) p.name false (delete_approved s p gvr)
          (delete_approved-Gated p gvr)
          (λ g c clear same. elim clear [
            | bypassed b ↦ absurd (cc b)
            | confirmed accepted approved ↦ (gvr, e, same, accepted, approved)
          ]))

  update_approved-Gated :
      (p : UpdateParams) (gvr : Gvr)
      → Gated (λ g c. c ≡ update_change s p gvr) (update_approved s p gvr)
  unfolding update_approved
  update_approved-Gated p gvr =
      Gated-then (λ g c. c ≡ update_change s p gvr)
        (s.get_resource_interface p.namespace p.cluster gvr) _
        (Gated-perform s (update_change s p gvr) _
          (λ a. Silent-lift (s.create_response (a ∷ []) p.cluster) _ (λ text g. refl)))

  abbrev pub IsPatch : (Bytes → String) → UpdateParams → Gate → Change Object → Type 0
  IsPatch show p g c =
      (gvr : Gvr) × (s.resolve_gvr p.cluster p.kind p.api_version ≡ ok gvr)
      × (c ≡ patch p.namespace p.cluster gvr p.name p.patch_bytes)
      × IsCleared s
          (record {
            tool = "patchKubernetesResource";
            cluster = p.cluster;
            namespace = p.namespace;
            kind = p.kind;
            name = p.name;
            payload = p.patch_bytes;
          })
          p.confirmation_token
          (s.sprintf "PATCH %s %s/%s in namespace %q of cluster %q with patch:\n%s" (
            gvr.group
            ∷ gvr.version
            ∷ gvr.resource
            ∷ p.kind
            ∷ p.name
            ∷ p.namespace
            ∷ p.cluster
            ∷ show p.patch_bytes
            ∷ []))
          "" s.auto_write g

  -- A patch call makes at most one change, the patch of the named resource of the type that its
  -- kind resolves to, with the bytes of the call; and only if the gate cleared, with the call's
  -- token, the operation with this cluster, namespace, kind and name and these bytes as payload,
  -- on a summary that shows them, which in auto-write mode it does unasked.
  pub update_kubernetes_resource-Gated :
      (show : Bytes → String) (p : UpdateParams)
      → Gated (IsPatch show p) (update_kubernetes_resource s show p)
  unfolding update_kubernetes_resource update_operation update_summary
  update_kubernetes_resource-Gated show p =
      Gated-lift _ (s.resolve_gvr p.cluster p.kind p.api_version) _ (λ gvr e.
        Gated-check (λ c. c ≡ update_change s p gvr) _ s (update_operation p) p.confirmation_token
          (update_summary s p gvr show) "" s.auto_write (update_approved s p gvr)
          (update_approved-Gated p gvr) (λ g c clear same. (gvr, e, same, clear)))

module _ {Object : Type 0} (s : Services Object) (u : Unstructured Object) where
  create_approved-Gated :
      (p : CreateParams) (gvr : Gvr) (obj : Object) (namespace : String)
      → Gated
          (λ g c. c ≡ create namespace p.cluster gvr obj)
          (create_approved s u p gvr obj namespace)
  unfolding create_approved
  create_approved-Gated p gvr obj namespace =
      Gated-then (λ g c. c ≡ create namespace p.cluster gvr obj)
        (s.get_resource_interface namespace p.cluster gvr) _
        (Gated-perform s (create namespace p.cluster gvr obj) _
          (λ a. Silent-lift (s.create_response (a ∷ []) p.cluster) _ (λ text g. refl)))

  -- The manifest decodes to the object, which is complete and agrees with the parameters.
  pub record IsManifest (p : CreateParams) (obj : Object) (namespace : String) : Type 0 where
    pub decoded : u.unmarshal p.manifest ≡ some obj
    pub kind : u.kind obj ≢ ""
    pub version : u.version obj ≢ ""
    pub same_kind : s.equal_fold p.kind (u.kind obj) ≡ true
    pub same_name : p.name ≢ "" → p.name ≡ u.get_name obj
    pub given : p.namespace ≢ "" → namespace ≡ p.namespace
    pub default : p.namespace ≡ "" → namespace ≡ u.get_namespace obj

  check_manifest-IsManifest :
      (p : CreateParams) (found obj : Object) (namespace : String)
      → u.unmarshal p.manifest ≡ some found
      → check_manifest s u p found ≡ ok (obj, namespace)
      → IsManifest p obj namespace
  unfolding check_manifest
  check_manifest-IsManifest p found obj namespace decoded h =
      let (complete, h1) =
        refuse_if-inv (str_eq (u.kind found) "" || str_eq (u.version found) "") manifest_incomplete
          _ (obj, namespace) h in
      let (kind, h2) =
        refuse_if-inv (not (s.equal_fold p.kind (u.kind found))) kind_mismatch _ (obj, namespace)
          h1 in
      let (name, h3) =
        refuse_if-inv (not (str_eq p.name "") && not (str_eq p.name (u.get_name found)))
          name_mismatch _ (obj, namespace) h2 in
      subst (λ (t : Object × String). IsManifest p t.0 t.1) (ok_injective h3)
        (record {
          decoded = decoded;
          kind = str_ne (u.kind found) "" (ground (arith, complete));
          version = str_ne (u.version found) "" (ground (arith, complete));
          same_kind = ground (arith, kind);
          same_name = λ given.
              (eq_iff p.name (u.get_name found)).0
                (ground (arith, name, ne-str_eq p.name "" given));
          given = λ given. rw (ne-str_eq p.namespace "" given) refl;
          default = λ empty. rw ((eq_iff p.namespace "").1 empty) refl;
        })

  parsed-IsManifest :
      (p : CreateParams) (r : Option Object) (obj : Object) (namespace : String)
      → u.unmarshal p.manifest ≡ r
      → elim r [ none ↦ err manifest_unparsed | some found ↦ check_manifest s u p found ]
        ≡ ok (obj, namespace)
      → IsManifest p obj namespace
  parsed-IsManifest p none obj namespace decoded h = cc
  parsed-IsManifest p (some found) obj namespace decoded h =
      check_manifest-IsManifest p found obj namespace decoded h

  parse_create_manifest-IsManifest :
      (p : CreateParams) (obj : Object) (namespace : String)
      → parse_create_manifest s u p ≡ ok (obj, namespace)
      → IsManifest p obj namespace
  unfolding parse_create_manifest
  parse_create_manifest-IsManifest p obj namespace h =
      parsed-IsManifest p (u.unmarshal p.manifest) obj namespace refl h

  abbrev pub IsCreation : CreateParams → Gate → Change Object → Type 0
  IsCreation p g c =
      (obj : Object) × (namespace : String) × (gvr : Gvr) × (payload : Bytes) × IsManifest p obj
        namespace
      × (s.resolve_gvr p.cluster (u.kind obj) (u.group_version obj) ≡ ok gvr)
      × (s.marshal obj ≡ ok payload)
      × (c ≡ create namespace p.cluster gvr obj)
      × IsCleared s
          (record {
            tool = "createKubernetesResource";
            cluster = p.cluster;
            namespace = namespace;
            kind = u.kind obj;
            name = u.get_name obj;
            payload = payload;
          })
          p.confirmation_token
          (s.sprintf "CREATE %s %s/%s in namespace %q of cluster %q with manifest:\n%s" (
            gvr.group
            ∷ gvr.version
            ∷ gvr.resource
            ∷ u.kind obj
            ∷ u.get_name obj
            ∷ namespace
            ∷ p.cluster
            ∷ p.manifest
            ∷ []))
          "" s.auto_write g

  -- A create call makes at most one change, the creation of the object that the manifest decodes
  -- to, whose kind agrees with that of the parameters up to case and whose name agrees with theirs
  -- where they give one, in the namespace of the parameters or, where they give none, of the
  -- manifest, and of the type that the kind of the manifest resolves to; and only if the gate
  -- cleared, with the call's token, the operation with this cluster, namespace, kind and name and
  -- the object's bytes as payload, on a summary that shows the manifest, which in auto-write mode
  -- it does unasked.
  pub create_kubernetes_resource-Gated :
      (p : CreateParams) → Gated (IsCreation p) (create_kubernetes_resource s u p)
  unfolding create_kubernetes_resource create_operation create_summary
  create_kubernetes_resource-Gated p = Gated-lift _ (parse_create_manifest s u p) _ (λ parsed e.
      Gated-lift _ (s.resolve_gvr p.cluster (u.kind parsed.0) (u.group_version parsed.0)) _
        (λ gvr f. Gated-lift _ (s.marshal parsed.0) _ (λ payload h.
          Gated-check (λ c. c ≡ create parsed.1 p.cluster gvr parsed.0) _ s
            (create_operation s u p parsed.0 parsed.1 payload) p.confirmation_token
            (create_summary s u p gvr parsed.0 parsed.1) "" s.auto_write
            (create_approved s u p gvr parsed.0 parsed.1)
            (create_approved-Gated p gvr parsed.0 parsed.1)
            (λ g c clear same. (
              parsed.0,
              parsed.1,
              gvr,
              payload,
              parse_create_manifest-IsManifest p parsed.0 parsed.1 e,
              f,
              h,
              same,
              clear,
            )))))

  -- Planning a deletion, a patch or a creation changes nothing, on any path.
  pub plans-Silent :
      ((p : DeleteParams) → Silent (delete_kubernetes_resource_plan s p))
      × ((apply : Bytes → Bytes → Result Failure Bytes) (p : UpdateParams)
          → Silent (update_kubernetes_resource_plan s apply p))
      × ((p : CreateParams) → Silent (create_kubernetes_resource_plan s u p))
  unfolding delete_kubernetes_resource_plan update_kubernetes_resource_plan
      create_kubernetes_resource_plan
  plans-Silent = (
    λ p. Silent-lift (s.resolve_gvr p.cluster p.kind p.api_version) _ (λ gvr.
        Silent-then (s.get_resource_interface p.namespace p.cluster gvr) _ (
          Silent-lift (s.get_object p.namespace p.cluster gvr p.name) _ (λ current.
            Silent-issue s (delete_operation p) _
              (λ token. Silent-plan_reply s _ _ _ _ _ _ token)))),
    λ apply p. Silent-lift (s.resolve_gvr p.cluster p.kind p.api_version) _ (λ gvr.
        Silent-then (s.get_resource_interface p.namespace p.cluster gvr) _ (
          Silent-lift (s.get_object p.namespace p.cluster gvr p.name) _ (λ original.
            Silent-lift (s.marshal original) _ (λ bytes.
              Silent-lift (apply p.patch_bytes bytes) _ (λ patched_bytes.
                Silent-issue s (update_operation p) _
                  (λ token. Silent-plan_reply s _ _ _ _ _ _ token)))))),
    λ p. Silent-lift (parse_create_manifest s u p) _ (λ parsed.
        Silent-lift (s.marshal parsed.0) _ (λ payload.
          Silent-issue s (create_operation s u p parsed.0 parsed.1 payload) _
            (λ token. Silent-plan_reply s _ _ _ _ _ _ token))),
  )
