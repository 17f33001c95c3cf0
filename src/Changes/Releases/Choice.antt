-- ===== src/Changes/Releases/Choice.antt =====
-- Which release a request for a Kubernetes version takes.
use mathlib.Core.Path.{subst}
use mathlib.Core.List.{Memᴰ}
use mathlib.Core.List.Memᴰ.{head, tail}
use rancher_ai_mcp.Prelude.{
  ℕ, ◌<◌, String, ◌≡◌, refl, ap, sym, ◌∙◌, ◌⊎◌, inl, inr, true, false, Bool-cases, Option, none,
  some, Option-cases, List, [], ◌∷◌, ok, ok_injective, >>=-ok-inv, if◌then◌else◌, str_eq, eq_iff,
  str_ne, contains, cut,
}
use rancher_ai_mcp.Changes.Releases.{
  Releases, is_distribution, get_kdm_releases, supported_kubernetes_version, potential_versions,
  after_cut, release_number, is_above, split_of, distro_version, chosen, choose, choose_version,
}
use rancher_ai_mcp.Changes.Releases.Latest.{IsLatest, kept, newer, latest_version-IsLatest}

-- The releases of the version and distribution wanted.
record IsPotential (version wanted : String) (versions found : List String) : Type 0 where
  other : ¬ Memᴰ version versions
  sound : (v : String) → Memᴰ v found → Memᴰ v versions × (contains v wanted ≡ true)
  complete : (v : String) → Memᴰ v versions → contains v wanted ≡ true → Memᴰ v found

IsPotential-none :
    (version wanted : String) (versions : List String)
    → potential_versions version wanted versions ≡ none
    → Memᴰ version versions
unfolding potential_versions
IsPotential-none version wanted [] h = cc
IsPotential-none version wanted (v ∷ versions) h = elim (Bool-cases (str_eq v version)) [
  | inl e ↦ head (sym ((eq_iff v version).0 e))
  | inr e ↦ elim (Option-cases (potential_versions version wanted versions)) [
    | inl f ↦ tail (IsPotential-none version wanted versions f)
    | inr (found, f) ↦ cc (rw (e, f) at h)
  ]
]

IsPotential-cons :
    (version wanted v : String) (versions found : List String)
    → str_eq v version ≡ false
    → IsPotential version wanted versions found
    → IsPotential version wanted (v ∷ versions) (if contains v wanted then v ∷ found else found)
IsPotential-cons version wanted v versions found apart h = elim (Bool-cases (contains v wanted)) [
  | inl e ↦ rw e (record {
    other = λ m. elim m [ head f ↦ str_ne v version apart (sym f) | tail m' ↦ h.other m' ];
    sound = λ u m. elim m [
      | head f ↦ (head f, ap (λ w. contains w wanted) f ∙ e)
      | tail m' ↦ (tail (h.sound u m').0, (h.sound u m').1)
    ];
    complete = λ u m c. elim m [ head f ↦ head f | tail m' ↦ tail (h.complete u m' c) ];
  })
  | inr e ↦ rw e (record {
    other = λ m. elim m [ head f ↦ str_ne v version apart (sym f) | tail m' ↦ h.other m' ];
    sound = λ u m. (tail (h.sound u m).0, (h.sound u m).1);
    complete = λ u m c. elim m [
      | head f ↦ cc (sym (ap (λ w. contains w wanted) f ∙ e) ∙ c)
      | tail m' ↦ h.complete u m' c
    ];
  })
]

IsPotential-some :
    (version wanted : String) (versions found : List String)
    → potential_versions version wanted versions ≡ some found
    → IsPotential version wanted versions found
unfolding potential_versions
IsPotential-some version wanted [] found h =
    let same : [] ≡ found = cc in
    rw (sym same) (record {
      other = λ m. elim m [ ];
      sound = λ v m. elim m [ ];
      complete = λ v m c. elim m [ ];
    })
IsPotential-some version wanted (v ∷ versions) found h = elim (Bool-cases (str_eq v version)) [
  | inl e ↦ cc (rw e at h)
  | inr e ↦ elim (Option-cases (potential_versions version wanted versions)) [
    | inl f ↦ cc (rw (e, f) at h)
    | inr (rest, f) ↦
        let same : (if contains v wanted then v ∷ rest else rest) ≡ found = cc (rw (e, f) at h) in
        rw (sym same) (
          IsPotential-cons version wanted v versions rest e
            (IsPotential-some version wanted versions rest f))
  ]
]

-- Which release is taken: the version itself, where it is released; or one of the distribution
-- and version, with a number above 0 that none of them exceeds; or none, where none of them has a
-- number above 0.
pub data IsChoice (version distro : String) (versions : List String) : Option String → Type 0 where
  released : Memᴰ version versions → IsChoice version distro versions (some version)
  newest :
      (v : String) (m : ℕ)
      → ¬ Memᴰ version versions
      → Memᴰ v versions
      → contains v (distro_version version distro) ≡ true
      → release_number (split_of distro) v ≡ some m
      → 0 < m
      → ((u : String)
          → Memᴰ u versions
          → contains u (distro_version version distro) ≡ true
          → is_above m (release_number (split_of distro) u) ≡ false)
      → IsChoice version distro versions (some v)
  unsupported :
      ¬ Memᴰ version versions
      → ((u : String)
          → Memᴰ u versions
          → contains u (distro_version version distro) ≡ true
          → is_above 0 (release_number (split_of distro) u) ≡ false)
      → IsChoice version distro versions none

empty_number : (distro : String) → release_number (split_of distro) "" ≡ none
unfolding split_of release_number cut after_cut
empty_number distro = elim (Bool-cases (str_eq distro "k3s")) [
  | inl e ↦ rw e refl
  | inr e ↦ rw e refl
]

choose-IsChoice :
    (version distro latest : String) (versions found : List String)
    → IsPotential version (distro_version version distro) versions found
    → IsLatest (split_of distro) "" 0 found latest
    → IsChoice version distro versions (chosen latest)
unfolding chosen
choose-IsChoice version distro latest versions found h (kept same bound) =
    rw (same) (unsupported h.other (λ u m c. bound u (h.complete u m c)))
choose-IsChoice version distro latest versions found h (newer m number above member bound) =
    elim (Bool-cases (str_eq latest "")) [
      | inl e ↦
          let absent : none ≡ some m =
            sym (empty_number distro)
            ∙ ap (release_number (split_of distro)) (sym ((eq_iff latest "").0 e))
            ∙ number in
          cc absent
      | inr e ↦ rw e (
          newest latest m h.other (h.sound latest member).0 (h.sound latest member).1 number above
            (λ u m' c. bound u (h.complete u m' c)))
    ]

-- For every list of releases, the version that is taken for a request is the requested version
-- itself if it is released; otherwise it is a release whose name contains the version with the
-- distribution, and whose release number is above 0 and at least that of every such release;
-- and there is none only if no such release has a number above 0.
pub choose_version-IsChoice :
    (version distro : String) (versions : List String)
    → IsChoice version distro versions (choose_version version distro versions)
unfolding choose_version choose
choose_version-IsChoice version distro versions =
    elim (Option-cases (potential_versions version (distro_version version distro) versions)) [
      | inl e ↦ rw e (released (IsPotential-none version _ versions e))
      | inr (found, e) ↦ rw e (
          choose-IsChoice version distro _ versions found
            (IsPotential-some version _ versions found e)
            (latest_version-IsLatest (split_of distro) "" 0 found))
    ]

pub is_distribution-either :
    (distro : String) → is_distribution distro ≡ true → (distro ≡ "rke2") ⊎ (distro ≡ "k3s")
unfolding is_distribution
is_distribution-either distro h = elim (Bool-cases (str_eq distro "rke2")) [
  | inl e ↦ inl ((eq_iff distro "rke2").0 e)
  | inr e ↦ inr ((eq_iff distro "k3s").0 (rw e at h))
]

pub supported_kubernetes_version-IsChoice :
    (fetch : Releases) (url distro version : String) (found : Option String × List String)
    → supported_kubernetes_version fetch url distro version ≡ ok found
    → (get_kdm_releases fetch url distro ≡ ok found.1) × IsChoice version distro found.1 found.0
unfolding supported_kubernetes_version
supported_kubernetes_version-IsChoice fetch url distro version found h =
    let fetched = >>=-ok-inv (get_kdm_releases fetch url distro) _ h in
    let same : (choose_version version distro fetched.0, fetched.0) ≡ found =
      ok_injective fetched.2 in
    (
      fetched.1 ∙ ap (λ (r : Option String × List String). ok r.1) same,
      subst (λ (r : Option String × List String). IsChoice version distro r.1 r.0) same
          (choose_version-IsChoice version distro fetched.0),
    )
