-- ===== src/Core/Names/Examples.antt =====
-- A repository name at a concrete text.
use flanforge.Base.{◌≡◌, refl, ◌≤◌, ◌++◌, ◌∷◌, false, codes, length, ok, err}
use flanforge.Core.Names.{
  IdentifierError, is_unsafe_segment, new_repository_name, owner, repository,
}
use flanforge.Core.Names.Repository.{new_repository_name-parts}

accepts : new_repository_name (codes "acme/app") ≡ ok (codes "acme/app")
unfolding new_repository_name flanforge.Base.text_eq flanforge.Core.Names.starts_alphanumeric
    flanforge.Base.all
accepts = refl

refuses_nested : new_repository_name (codes "acme/app/x") ≡ err IdentifierError.wrong_repository
unfolding new_repository_name
refuses_nested = refl

new_repository_name-parts_example :
    (codes "acme/app" ≡ codes "acme/app")
    × (length (codes "acme/app") ≤ 201)
    × (owner (codes "acme/app") ++ (b'/' ∷ repository (codes "acme/app")) ≡ codes "acme/app")
    × (is_unsafe_segment (owner (codes "acme/app")) ≡ false)
    × (is_unsafe_segment (repository (codes "acme/app")) ≡ false)
new_repository_name-parts_example = new_repository_name-parts (codes "acme/app") accepts
