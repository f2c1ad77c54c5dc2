-- ===== src/Engine/Paths/Tests.antt =====
-- A path into an object that is not there yet.
use dp_integrator.Base.{refl, ◌≡◌, ok}
use dp_integrator.Base.Text.{is_empty}
use dp_integrator.Base.Value.{str, obj, arr, cons, nil, Fields, field, end, get_field, set_field}
use dp_integrator.Base.Print.{decimal}
use dp_integrator.Engine.Paths.{
  split_dots, get_path, get_in, member, element_at, set_path, set_in, below,
}
use dp_integrator.Engine.Paths.Readback.{meets_array, Written, set_path-Written}

abbrev out : Fields
out = field "a" (str "x") end

nested :
    set_path out "b.c" (str "y")
    ≡ ok (field "a" (str "x") (field "b" (obj (field "c" (str "y") end)) end))
unfolding set_path is_empty split_dots set_in below set_field get_field
nested = refl

of_array :
    get_path (obj (field "t" (arr (cons (obj (field "g" (str "visa") end)) nil)) end)) "t.0.g"
    ≡ str "visa"
unfolding get_path is_empty split_dots get_in member element_at get_field decimal
of_array = refl

set_path-Written_example : Written out "b.c" (str "y") (set_path out "b.c" (str "y"))
unfolding split_dots get_field meets_array
set_path-Written_example = set_path-Written out "b.c" (str "y") refl
