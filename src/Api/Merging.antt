-- ===== src/Api/Merging.antt =====
-- What the update handlers rely on of mergo, and what they write by it.
use dairycart.Prelude.{ℕ, ◌≡◌, ◌⊎◌, ◌==◌, if◌then◌else◌, some}
use dairycart.Models.Basics.{Time}
use dairycart.Storage.Answers.{Command}
use dairycart.Http.Handler.{World}
use dairycart.Api.Rules.{IsRefused}

-- `mergo.Merge(dst, src)` keeps the id of the first, unless that is zero.
pub record FillsId {A : Type 0} (id_of : A → ℕ) (merge : A → A → A) : Type 0 where
  pub merged_id : (u v : A) → id_of (merge u v) ≡ (if id_of u == 0 then id_of v else id_of u)

module _ {A D : Type 0} (id_of : A → ℕ) (update : A → Command D Time) where
  -- Nothing is written and the answer is an error; or the row `new` is written, whose id is that of the
  -- request's body, or that of the row that was found if the body has none.
  abbrev pub IsUpdate : (body found new : A) → D → World D → Type 0
  IsUpdate body found new d w =
      IsRefused d w
      ⊎ (id_of new ≡ (if id_of body == 0 then id_of found else id_of body))
        × (w.db ≡ (update new d).1)
        × ((w.status ≡ some 200) ⊎ (w.status ≡ some 500))
