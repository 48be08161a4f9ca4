-- ===== src/Orm/Columns.antt =====
-- Columns that a write leaves alone.
use money_management_app.Prelude.{
  ◌≡◌, refl, Bool, Option, none, some, List, [], ◌∷◌, map, replace, find, arith,
}
use money_management_app.Orm.Client.{Client}
use money_management_app.Orm.SoftDelete.{Action, Where}
use money_management_app.Orm.Query.{Table, reach, update, update-written, written}

pub map-replace :
    {A B : Type 0} (g : A → B) (p : A → Bool) (f : A → A) (xs : List A)
    → ((x : A) → g (f x) ≡ g x)
    → map g (replace p f xs) ≡ map g xs
map-replace g p f [] h = refl
map-replace g p f (x ∷ xs) h = ground (arith, h x, map-replace g p f xs h)

map-written :
    {A B : Type 0} (g : A → B) (f : A → A) (rows changed : List A) (found : Option A)
    → map g changed ≡ map g rows
    → map g (written f rows changed found).1 ≡ map g rows
map-written g f rows changed none e = refl
map-written g f rows changed (some r) e = e

-- What an update does not change of any row, it does not change of the table.
pub map-update :
    (orm : Client) {A B : Type 0} (t : Table A) (w : Where A) (g : A → B) (f : A → A)
    (rows : List A)
    → ((x : A) → g (f x) ≡ g x)
    → map g (update orm t w f rows).1 ≡ map g rows
map-update orm t w g f rows keep =
    let p = reach t Action.update w in
    rw (update-written orm t w f rows)
      (map-written g f rows (replace p f rows) (find p rows) (map-replace g p f rows keep))
