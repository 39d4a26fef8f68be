-- ===== src/Interaction/Target.antt =====
-- ParseDownstreamTarget of internal/interaction/resolver.go. `trim` stands for strings.TrimSpace.
use Prim.Native.Char.{Char, code}
use Prim.Native.String.{String, ◌++◌ as str_append}
use Prim.Native.String.append
use Prim.Native.String.compare
use simulation_core.Base.{
  ◌≡◌, refl, ap, ◌∙◌, Bool, false, Option, none, some, ◌=ₛ◌, ◌==◌, if◌then◌else◌,
}
use simulation_core.Base.Key.{endpoint_key}

pub data TargetError : Type 0 where
  empty_target : TargetError
  empty_service : String → TargetError
  empty_path : String → TargetError

pub data Parsed : Type 0 where
  target : (service path : String) → Parsed
  malformed : TargetError → Parsed

abbrev pub is_colon : Char → Bool
is_colon c = code c == 58

abbrev pub put_before : Char → Option (String × String) → Option (String × String)
put_before c none = none
put_before c (some (first, second)) = some (String.◌∷◌ c first, second)

-- strings.SplitN(_, ":", 2), none where the text has no colon.
unfoldable pub split_at_colon : String → Option (String × String)
split_at_colon String.[] = none
split_at_colon (String.◌∷◌ c s) =
    let rest = split_at_colon s in if is_colon c then some (String.[], s) else put_before c rest

abbrev pub parse_parts : String → String → String → Parsed
parse_parts whole service path =
    if service =ₛ ""
    then malformed (empty_service whole)
    else if path =ₛ ""
    then malformed (empty_path whole)
    else target service path

abbrev pub parse_split : (String → String) → String → Option (String × String) → Parsed
parse_split trim whole none = target whole "/"
parse_split trim whole (some (service, path)) = parse_parts whole (trim service) (trim path)

abbrev pub parse_trimmed : (String → String) → String → Parsed
parse_trimmed trim whole =
    if whole =ₛ "" then malformed empty_target else parse_split trim whole (split_at_colon whole)

unfoldable pub parse_downstream_target : (String → String) → String → Parsed
parse_downstream_target trim given = parse_trimmed trim (trim given)

-- No colon stands in a text.
abbrev pub Plain : String → Type 0
Plain String.[] = Unit {0}
Plain (String.◌∷◌ c s) = (is_colon c ≡ false) × Plain s

split_at_colon-append :
    (service path : String)
    → Plain service
    → split_at_colon (str_append service (str_append ":" path)) ≡ some (service, path)
unfolding split_at_colon
split_at_colon-append String.[] path plain =
    rw (append.nil (str_append ":" path)) (rw (append.cons ":" "" path) (rw (append.nil path) refl))
split_at_colon-append (String.◌∷◌ c s) path plain =
    rw (append.cons c s (str_append ":" path))
      (rw plain.0 (ap (put_before c) (split_at_colon-append s path plain.1)))

cons_not_empty : (c : Char) (s : String) → String.◌∷◌ c s =ₛ "" ≡ false
cons_not_empty c s = rw (compare.cons-nil c s) refl

key_not_empty : (service path : String) → endpoint_key service path =ₛ "" ≡ false
key_not_empty String.[] path =
    rw (append.nil (str_append ":" path)) (rw (append.cons ":" "" path) (cons_not_empty ":" _))
key_not_empty (String.◌∷◌ c s) path =
    rw (append.cons c s (str_append ":" path)) (cons_not_empty c _)

-- A target printed as `service:path` is parsed back to its parts, where the service has no colon, both
-- parts are not empty, and trimming leaves them and the whole alone.
pub parse_downstream_target-endpoint_key :
    (trim : String → String) (service path : String)
    → Plain service
    → service =ₛ "" ≡ false
    → path =ₛ "" ≡ false
    → trim service ≡ service
    → trim path ≡ path
    → trim (endpoint_key service path) ≡ endpoint_key service path
    → parse_downstream_target trim (endpoint_key service path) ≡ target service path
unfolding parse_downstream_target
parse_downstream_target-endpoint_key trim service path plain some_service some_path s p whole =
    ap (parse_trimmed trim) whole
    ∙ (rw (key_not_empty service path) (
        rw (split_at_colon-append service path plain)
          (rw s (rw p (rw some_service (rw some_path refl))))))
