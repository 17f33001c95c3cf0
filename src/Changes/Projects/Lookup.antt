-- ===== src/Changes/Projects/Lookup.antt =====
-- Which project `GetProjectID` finds for a name.
use rancher_ai_mcp.Prelude.{
  String, ◌≡◌, refl, sym, ap, ◌∙◌, true, false, Bool-cases, inl, inr, Option, none, some, List, [],
  ◌∷◌, ◌++◌, Result, ok, err, ok_injective, if◌then◌else◌, All,
}
use rancher_ai_mcp.Changes.{Failure, not_found, Services, Unstructured}
use rancher_ai_mcp.Changes.Projects.{
  ProjectServices, local, is_not_found, display_matches, find_project, search_project,
  get_project_id,
}

module _ {Object : Type 0} (s : Services Object) (x : ProjectServices Object)
    (u : Unstructured Object) where
  -- A project with this display name, up to case.
  abbrev pub IsDisplayed : String → Object → Type 0
  IsDisplayed wanted project =
      (name : String) × (u.display_name project ≡ some name) × (s.equal_fold name wanted ≡ true)

  -- The project that a name stands for: the one with this ID, or where there is none the first of
  -- the cluster's projects with this display name.
  pub data IsProject (cluster_id wanted project_id : String) : Type 0 where
    by_id :
        (project : Object)
        → x.get_resource "local" "project" cluster_id wanted ≡ ok project
        → project_id ≡ u.get_name project
        → IsProject cluster_id wanted project_id
    by_display_name :
        (e : String) (before after : List Object) (project : Object)
        → x.get_resource "local" "project" cluster_id wanted ≡ err (not_found e)
        → x.get_resources "local" "project" cluster_id ≡ ok (before ++ project ∷ after)
        → All (λ (other : Object). ¬ IsDisplayed wanted other) before
        → IsDisplayed wanted project
        → project_id ≡ u.get_name project
        → IsProject cluster_id wanted project_id

  abbrev IsFirstDisplayed : String → List Object → String → Type 0
  IsFirstDisplayed wanted projects project_id =
      (before : List Object) × (project : Object) × (after : List Object) × (projects
        ≡ before ++ project ∷ after)
      × All (λ (other : Object). ¬ IsDisplayed wanted other) before
      × IsDisplayed wanted project
      × (project_id ≡ u.get_name project)

  display_matches-IsDisplayed :
      (wanted : String) (project : Object) (o : Option String)
      → u.display_name project ≡ o
      → display_matches s x u wanted o ≡ true
      → IsDisplayed wanted project
  unfolding display_matches
  display_matches-IsDisplayed wanted project none named h = cc
  display_matches-IsDisplayed wanted project (some name) named h = (name, named, h)

  not-IsDisplayed :
      (wanted : String) (project : Object)
      → display_matches s x u wanted (u.display_name project) ≡ false
      → ¬ IsDisplayed wanted project
  unfolding display_matches
  not-IsDisplayed wanted project h (name, named, same) =
      let other : s.equal_fold name wanted ≡ false = rw named at h in cc (other, same)

  find_project-IsFirstDisplayed :
      (wanted : String) (projects : List Object) (project_id : String)
      → find_project s x u wanted projects ≡ ok project_id
      → IsFirstDisplayed wanted projects project_id
  unfolding find_project
  find_project-IsFirstDisplayed wanted [] project_id h = cc
  find_project-IsFirstDisplayed wanted (project ∷ projects) project_id h =
      elim (Bool-cases (display_matches s x u wanted (u.display_name project))) [
        | inl e ↦
            let same : ok (u.get_name project) ≡ ok project_id = rw e at h in
            (
              [],
              project,
              projects,
              refl,
              tt,
              display_matches-IsDisplayed wanted project _ refl e,
              sym (ok_injective same),
            )
        | inr e ↦
            let (before, found, after, split, others, displayed, named) =
              find_project-IsFirstDisplayed wanted projects project_id (rw e at h) in
            (
              project ∷ before,
              found,
              after,
              ap (λ (rest : List Object). project ∷ rest) split,
              (not-IsDisplayed wanted project e, others),
              displayed,
              named,
            )
      ]

  search_project-IsProject :
      (cluster_id wanted e : String) (r : Result Failure (List Object)) (project_id : String)
      → x.get_resource "local" "project" cluster_id wanted ≡ err (not_found e)
      → x.get_resources "local" "project" cluster_id ≡ r
      → search_project s x u wanted r ≡ ok project_id
      → IsProject cluster_id wanted project_id
  unfolding search_project
  search_project-IsProject cluster_id wanted e (err f) project_id missed listed h = cc
  search_project-IsProject cluster_id wanted e (ok projects) project_id missed listed h =
      let (before, found, after, split, others, displayed, named) =
        find_project-IsFirstDisplayed wanted projects project_id h in
      by_display_name e before after found missed (listed ∙ ap ok split) others displayed named

  not_found-inv : (e : Failure) → is_not_found e ≡ true → (text : String) × (e ≡ not_found text)
  unfolding is_not_found
  not_found-inv (not_found text) h = (text, refl)
  not_found-inv _ h = cc

  looked_up-IsProject :
      (cluster_id wanted project_id : String) (r : Result Failure Object)
      → x.get_resource "local" "project" cluster_id wanted ≡ r
      → elim r [
        | ok project ↦ ok (u.get_name project)
        | err e ↦
            if is_not_found e
            then search_project s x u wanted (x.get_resources local "project" cluster_id)
            else err e
      ]
        ≡ ok project_id
      → IsProject cluster_id wanted project_id
  looked_up-IsProject cluster_id wanted project_id (ok project) found h =
      by_id project found (sym (ok_injective h))
  looked_up-IsProject cluster_id wanted project_id (err e) found h =
      elim (Bool-cases (is_not_found e)) [
        | inl b ↦
            let (text, same) = not_found-inv e b in
            search_project-IsProject cluster_id wanted text _ project_id (found ∙ ap err same) refl
              (rw b at h)
        | inr b ↦ cc (rw b at h)
      ]

  pub get_project_id-IsProject :
      (cluster_id wanted project_id : String)
      → get_project_id s x u cluster_id wanted ≡ ok project_id
      → IsProject cluster_id wanted project_id
  unfolding get_project_id
  get_project_id-IsProject cluster_id wanted project_id h =
      looked_up-IsProject cluster_id wanted project_id _ refl h
