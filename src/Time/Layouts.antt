-- ===== src/Time/Layouts.antt =====
-- sdk/utils/time.go: the layouts that `NewUltipaTimeFromString` tries, in its order, in two halves.
use ultipa_go_driver.Prelude.{List, [], ◌∷◌, ◌++◌, Text, bytes}

unfoldable pub first_layouts : List Text
first_layouts =
    bytes "2006-1-2T15:04:05.000Z0700"
    ∷ bytes "2006-1-2T15:04:05.000Z07:00"
    ∷ bytes "2006-1-2T15:04:05Z0700"
    ∷ bytes "2006-1-2T15:04:05Z07:00"
    ∷ bytes "06-1-2T15:04:05.000Z0700"
    ∷ bytes "06-1-2T15:04:05.000Z07:00"
    ∷ bytes "06-1-2T15:04:05Z0700"
    ∷ bytes "06-1-2T15:04:05Z07:00"
    ∷ bytes "2006-1-2T15:04:05.000-0700"
    ∷ bytes "2006-1-2T15:04:05.000-07:00"
    ∷ bytes "2006-1-2T15:04:05-0700"
    ∷ bytes "2006-1-2T15:04:05-07:00"
    ∷ bytes "2006-1-2T15:04:05"
    ∷ bytes "06-1-2T15:04:05.000Z0700"
    ∷ bytes "06-1-2T15:04:05.000Z07:00"
    ∷ bytes "06-1-2T15:04:05Z0700"
    ∷ bytes "06-1-2T15:04:05Z07:00"
    ∷ bytes "2006-1-2 15:04:05.000Z0700"
    ∷ bytes "2006-1-2 15:04:05.000Z07:00"
    ∷ bytes "2006-1-2 15:04:05Z0700"
    ∷ bytes "2006-1-2 15:04:05Z07:00"
    ∷ bytes "06-1-2 15:04:05.000Z0700"
    ∷ bytes "06-1-2 15:04:05.000Z07:00"
    ∷ bytes "06-1-2 15:04:05Z0700"
    ∷ bytes "06-1-2 15:04:05Z07:00"
    ∷ bytes "2006-1-2 15:04:05.000-0700"
    ∷ bytes "2006-1-2 15:04:05.000-07:00"
    ∷ bytes "2006-1-2 15:04:05-0700"
    ∷ bytes "2006-1-2 15:04:05-07:00"
    ∷ bytes "2006-1-2 15:04:05 -0700 MST"
    ∷ bytes "2006-1-2 15:04:05 MST"
    ∷ bytes "06-1-2 15:04:05.000-0700"
    ∷ bytes "06-1-2 15:04:05.000-07:00"
    ∷ bytes "06-1-2 15:04:05-0700"
    ∷ bytes "06-1-2 15:04:05-07:00"
    ∷ bytes "2006-1-2 15:04:05.000"
    ∷ bytes "2006-1-2 15:04:05"
    ∷ bytes "2006-1-2 15:04"
    ∷ bytes "2006-1-2 15"
    ∷ bytes "2006-1-2"
    ∷ bytes "06-1-2 15:04:05.000"
    ∷ bytes "06-1-2 15:04:05"
    ∷ bytes "06-1-2 15:04"
    ∷ bytes "06-1-2 15"
    ∷ bytes "06-1-2"
    ∷ bytes "2006/1/2T15:04:05.000Z07:00"
    ∷ bytes "2006/1/2T15:04:05.000Z0700"
    ∷ bytes "2006/1/2T15:04:05Z07:00"
    ∷ bytes "2006/1/2T15:04:05Z0700"
    ∷ bytes "06/1/2T15:04:05.000Z07:00"
    ∷ bytes "06/1/2T15:04:05.000Z0700"
    ∷ bytes "06/1/2T15:04:05Z07:00"
    ∷ bytes "06/1/2T15:04:05Z0700"
    ∷ bytes "2006/1/2T15:04:05.000-07:00"
    ∷ bytes "2006/1/2T15:04:05.000-0700"
    ∷ bytes "2006/1/2T15:04:05-07:00"
    ∷ bytes "2006/1/2T15:04:05-0700"
    ∷ bytes "06/1/2T15:04:05.000-07:00"
    ∷ bytes "06/1/2T15:04:05.000-0700"
    ∷ bytes "06/1/2T15:04:05-07:00"
    ∷ bytes "06/1/2T15:04:05-0700"
    ∷ bytes "2006/1/2 15:04:05.000Z07:00"
    ∷ bytes "2006/1/2 15:04:05.000Z0700"
    ∷ bytes "2006/1/2 15:04:05Z07:00"
    ∷ bytes "2006/1/2 15:04:05Z0700"
    ∷ bytes "06/1/2 15:04:05.000Z07:00"
    ∷ bytes "06/1/2 15:04:05.000Z0700"
    ∷ bytes "06/1/2 15:04:05Z07:00"
    ∷ bytes "06/1/2 15:04:05Z0700"
    ∷ bytes "2006/1/2 15:04:05.000-07:00"
    ∷ bytes "2006/1/2 15:04:05.000-0700"
    ∷ bytes "2006/1/2 15:04:05-07:00"
    ∷ bytes "2006/1/2 15:04:05-0700"
    ∷ bytes "06/1/2 15:04:05.000-07:00"
    ∷ bytes "06/1/2 15:04:05.000-0700"
    ∷ bytes "06/1/2 15:04:05-07:00"
    ∷ bytes "06/1/2 15:04:05-0700"
    ∷ bytes "2006/1/2 15:04:05.000"
    ∷ bytes "2006/1/2 15:04:05"
    ∷ bytes "2006/1/2 15:04"
    ∷ bytes "2006/1/2 15"
    ∷ bytes "2006/1/2"
    ∷ bytes "06/1/2 15:04:05.000"
    ∷ bytes "06/1/2 15:04:05"
    ∷ bytes "06/1/2 15:04"
    ∷ bytes "06/1/2 15"
    ∷ []

unfoldable pub last_layouts : List Text
last_layouts =
    bytes "06/1/2"
    ∷ bytes "2006-01-02T15:04:05.000Z07:00"
    ∷ bytes "2006-01-02T15:04:05.000Z0700"
    ∷ bytes "2006-01-02T15:04:05Z07:00"
    ∷ bytes "2006-01-02T15:04:05Z0700"
    ∷ bytes "06-01-02T15:04:05.000Z07:00"
    ∷ bytes "06-01-02T15:04:05.000Z0700"
    ∷ bytes "06-01-02T15:04:05Z07:00"
    ∷ bytes "06-01-02T15:04:05Z0700"
    ∷ bytes "2006-01-02T15:04:05.000-07:00"
    ∷ bytes "2006-01-02T15:04:05.000-0700"
    ∷ bytes "2006-01-02T15:04:05-07:00"
    ∷ bytes "2006-01-02T15:04:05-0700"
    ∷ bytes "06-01-02T15:04:05.000-07:00"
    ∷ bytes "06-01-02T15:04:05.000-0700"
    ∷ bytes "06-01-02T15:04:05-07:00"
    ∷ bytes "06-01-02T15:04:05-0700"
    ∷ bytes "2006-01-02 15:04:05.000Z07:00"
    ∷ bytes "2006-01-02 15:04:05.000Z0700"
    ∷ bytes "2006-01-02 15:04:05Z07:00"
    ∷ bytes "2006-01-02 15:04:05Z0700"
    ∷ bytes "06-01-02 15:04:05.000Z07:00"
    ∷ bytes "06-01-02 15:04:05.000Z0700"
    ∷ bytes "06-01-02 15:04:05Z07:00"
    ∷ bytes "06-01-02 15:04:05Z0700"
    ∷ bytes "2006-01-02 15:04:05.000-07:00"
    ∷ bytes "2006-01-02 15:04:05.000-0700"
    ∷ bytes "2006-01-02 15:04:05-07:00"
    ∷ bytes "2006-01-02 15:04:05-0700"
    ∷ bytes "06-01-02 15:04:05.000-07:00"
    ∷ bytes "06-01-02 15:04:05.000-0700"
    ∷ bytes "06-01-02 15:04:05-07:00"
    ∷ bytes "06-01-02 15:04:05-0700"
    ∷ bytes "2006-01-02 15:04:05.000"
    ∷ bytes "2006010215:04:05.000Z0700"
    ∷ bytes "2006010215:04:05.000Z07:00"
    ∷ bytes "2006010215:04:05Z0700"
    ∷ bytes "2006010215:04:05Z07:00"
    ∷ bytes "06-01-02 15:04:05.000"
    ∷ bytes "06010215:04:05.000Z0700"
    ∷ bytes "06010215:04:05.000Z07:00"
    ∷ bytes "06010215:04:05Z0700"
    ∷ bytes "06010215:04:05Z07:00"
    ∷ bytes "2006010215:04:05.000-0700"
    ∷ bytes "2006010215:04:05.000-07:00"
    ∷ bytes "2006010215:04:05-0700"
    ∷ bytes "2006010215:04:05-07:00"
    ∷ bytes "06010215:04:05.000-0700"
    ∷ bytes "06010215:04:05.000-07:00"
    ∷ bytes "06010215:04:05-0700"
    ∷ bytes "06010215:04:05-07:00"
    ∷ bytes "2006010215:04:05"
    ∷ bytes "2006-01-02 15:04:05"
    ∷ bytes "2006-01-02 15:04"
    ∷ bytes "2006-01-02 15"
    ∷ bytes "2006-01-02"
    ∷ bytes "06010215:04:05"
    ∷ bytes "06-01-02 15:04:05"
    ∷ bytes "06-01-02 15:04"
    ∷ bytes "06-01-02 15"
    ∷ bytes "06-01-02"
    ∷ []

unfoldable pub layouts : List Text
layouts = first_layouts ++ last_layouts
