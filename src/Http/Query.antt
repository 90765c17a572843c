-- ===== src/Http/Query.antt =====
-- How the list endpoints of api/myhandlers read their query parameters; one that is absent is empty.
use go_lab.Prelude.{ℕ, ℤ, pos, negsuc, Text, is_empty, Option, none, some, ◌||◌, ltb, if◌then◌else◌}
use go_lab.Strings.{trim_space}
use go_lab.Strconv.{atoi}

abbrev up_to : ℕ → Option ℤ → Option ℤ
up_to most none = none
up_to most (some (negsuc n)) = none
up_to most (some (pos n)) = if ltb n 1 || ltb most n then none else some (pos n)

abbrev above_0 : Option ℤ → Option (Option ℤ)
above_0 none = none
above_0 (some (negsuc n)) = none
above_0 (some (pos n)) = if ltb n 1 then none else some (some (pos n))

-- The limit of a page of cases or requests, 50 if it is not given; `none` is a bad request.
abbrev pub page_size : Text → Option ℤ
page_size raw = let v = trim_space raw in if is_empty v then some (pos 50) else up_to 200 (atoi v)

-- A positive number that may be absent; `none` is a bad request.
abbrev pub positive_param : Text → Option (Option ℤ)
positive_param raw = let v = trim_space raw in if is_empty v then some none else above_0 (atoi v)
