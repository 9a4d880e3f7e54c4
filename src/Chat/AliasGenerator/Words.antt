-- ===== src/Chat/AliasGenerator/Words.antt =====
-- The words of alias_gen.rs, as bytes.
use ractor_wormhole.Prelude.{List, [], ◌∷◌}
use ractor_wormhole.Outcome.{Bytes}

abbrev pub adjectives : List Bytes
adjectives =
    -- smirking
    (115 ∷ 109 ∷ 105 ∷ 114 ∷ 107 ∷ 105 ∷ 110 ∷ 103 ∷ [])
    ∷
        -- corrupted
        (99 ∷ 111 ∷ 114 ∷ 114 ∷ 117 ∷ 112 ∷ 116 ∷ 101 ∷ 100 ∷ [])
    ∷
        -- vengeful
        (118 ∷ 101 ∷ 110 ∷ 103 ∷ 101 ∷ 102 ∷ 117 ∷ 108 ∷ [])
    ∷
        -- iron
        (105 ∷ 114 ∷ 111 ∷ 110 ∷ [])
    ∷
        -- grim
        (103 ∷ 114 ∷ 105 ∷ 109 ∷ [])
    ∷
        -- bloody
        (98 ∷ 108 ∷ 111 ∷ 111 ∷ 100 ∷ 121 ∷ [])
    ∷
        -- warp-touched
        (119 ∷ 97 ∷ 114 ∷ 112 ∷ 45 ∷ 116 ∷ 111 ∷ 117 ∷ 99 ∷ 104 ∷ 101 ∷ 100 ∷ [])
    ∷
        -- eternal
        (101 ∷ 116 ∷ 101 ∷ 114 ∷ 110 ∷ 97 ∷ 108 ∷ [])
    ∷
        -- skulking
        (115 ∷ 107 ∷ 117 ∷ 108 ∷ 107 ∷ 105 ∷ 110 ∷ 103 ∷ [])
    ∷
        -- ancient
        (97 ∷ 110 ∷ 99 ∷ 105 ∷ 101 ∷ 110 ∷ 116 ∷ [])
    ∷
        -- dark
        (100 ∷ 97 ∷ 114 ∷ 107 ∷ [])
    ∷
        -- chaotic
        (99 ∷ 104 ∷ 97 ∷ 111 ∷ 116 ∷ 105 ∷ 99 ∷ [])
    ∷
        -- gilded
        (103 ∷ 105 ∷ 108 ∷ 100 ∷ 101 ∷ 100 ∷ [])
    ∷
        -- forgotten
        (102 ∷ 111 ∷ 114 ∷ 103 ∷ 111 ∷ 116 ∷ 116 ∷ 101 ∷ 110 ∷ [])
    ∷
        -- zealous
        (122 ∷ 101 ∷ 97 ∷ 108 ∷ 111 ∷ 117 ∷ 115 ∷ [])
    ∷
        -- stalwart
        (115 ∷ 116 ∷ 97 ∷ 108 ∷ 119 ∷ 97 ∷ 114 ∷ 116 ∷ [])
    ∷
        -- unseen
        (117 ∷ 110 ∷ 115 ∷ 101 ∷ 101 ∷ 110 ∷ [])
    ∷
        -- feral
        (102 ∷ 101 ∷ 114 ∷ 97 ∷ 108 ∷ [])
    ∷
        -- stoic
        (115 ∷ 116 ∷ 111 ∷ 105 ∷ 99 ∷ [])
    ∷
        -- mechanized
        (109 ∷ 101 ∷ 99 ∷ 104 ∷ 97 ∷ 110 ∷ 105 ∷ 122 ∷ 101 ∷ 100 ∷ [])
    ∷
        -- blessed
        (98 ∷ 108 ∷ 101 ∷ 115 ∷ 115 ∷ 101 ∷ 100 ∷ [])
    ∷
        -- cursed
        (99 ∷ 117 ∷ 114 ∷ 115 ∷ 101 ∷ 100 ∷ [])
    ∷
        -- frenzied
        (102 ∷ 114 ∷ 101 ∷ 110 ∷ 122 ∷ 105 ∷ 101 ∷ 100 ∷ [])
    ∷
        -- implacable
        (105 ∷ 109 ∷ 112 ∷ 108 ∷ 97 ∷ 99 ∷ 97 ∷ 98 ∷ 108 ∷ 101 ∷ [])
    ∷
        -- ruinous
        (114 ∷ 117 ∷ 105 ∷ 110 ∷ 111 ∷ 117 ∷ 115 ∷ [])
    ∷
        -- scarred
        (115 ∷ 99 ∷ 97 ∷ 114 ∷ 114 ∷ 101 ∷ 100 ∷ [])
    ∷
        -- undying
        (117 ∷ 110 ∷ 100 ∷ 121 ∷ 105 ∷ 110 ∷ 103 ∷ [])
    ∷
        -- blighted
        (98 ∷ 108 ∷ 105 ∷ 103 ∷ 104 ∷ 116 ∷ 101 ∷ 100 ∷ [])
    ∷
        -- relentless
        (114 ∷ 101 ∷ 108 ∷ 101 ∷ 110 ∷ 116 ∷ 108 ∷ 101 ∷ 115 ∷ 115 ∷ [])
    ∷
        -- shrieking
        (115 ∷ 104 ∷ 114 ∷ 105 ∷ 101 ∷ 107 ∷ 105 ∷ 110 ∷ 103 ∷ [])
    ∷ []

abbrev pub nouns : List Bytes
nouns =
    -- gutterrunner
    (103 ∷ 117 ∷ 116 ∷ 116 ∷ 101 ∷ 114 ∷ 114 ∷ 117 ∷ 110 ∷ 110 ∷ 101 ∷ 114 ∷ [])
    ∷
        -- berserker
        (98 ∷ 101 ∷ 114 ∷ 115 ∷ 101 ∷ 114 ∷ 107 ∷ 101 ∷ 114 ∷ [])
    ∷
        -- arbiter
        (97 ∷ 114 ∷ 98 ∷ 105 ∷ 116 ∷ 101 ∷ 114 ∷ [])
    ∷
        -- inquisitor
        (105 ∷ 110 ∷ 113 ∷ 117 ∷ 105 ∷ 115 ∷ 105 ∷ 116 ∷ 111 ∷ 114 ∷ [])
    ∷
        -- crusader
        (99 ∷ 114 ∷ 117 ∷ 115 ∷ 97 ∷ 100 ∷ 101 ∷ 114 ∷ [])
    ∷
        -- guardian
        (103 ∷ 117 ∷ 97 ∷ 114 ∷ 100 ∷ 105 ∷ 97 ∷ 110 ∷ [])
    ∷
        -- dreadnought
        (100 ∷ 114 ∷ 101 ∷ 97 ∷ 100 ∷ 110 ∷ 111 ∷ 117 ∷ 103 ∷ 104 ∷ 116 ∷ [])
    ∷
        -- reaper
        (114 ∷ 101 ∷ 97 ∷ 112 ∷ 101 ∷ 114 ∷ [])
    ∷
        -- warbringer
        (119 ∷ 97 ∷ 114 ∷ 98 ∷ 114 ∷ 105 ∷ 110 ∷ 103 ∷ 101 ∷ 114 ∷ [])
    ∷
        -- mechanicus
        (109 ∷ 101 ∷ 99 ∷ 104 ∷ 97 ∷ 110 ∷ 105 ∷ 99 ∷ 117 ∷ 115 ∷ [])
    ∷
        -- prophet
        (112 ∷ 114 ∷ 111 ∷ 112 ∷ 104 ∷ 101 ∷ 116 ∷ [])
    ∷
        -- skaven
        (115 ∷ 107 ∷ 97 ∷ 118 ∷ 101 ∷ 110 ∷ [])
    ∷
        -- paladin
        (112 ∷ 97 ∷ 108 ∷ 97 ∷ 100 ∷ 105 ∷ 110 ∷ [])
    ∷
        -- heretic
        (104 ∷ 101 ∷ 114 ∷ 101 ∷ 116 ∷ 105 ∷ 99 ∷ [])
    ∷
        -- cultist
        (99 ∷ 117 ∷ 108 ∷ 116 ∷ 105 ∷ 115 ∷ 116 ∷ [])
    ∷
        -- specter
        (115 ∷ 112 ∷ 101 ∷ 99 ∷ 116 ∷ 101 ∷ 114 ∷ [])
    ∷
        -- slayer
        (115 ∷ 108 ∷ 97 ∷ 121 ∷ 101 ∷ 114 ∷ [])
    ∷
        -- executioner
        (101 ∷ 120 ∷ 101 ∷ 99 ∷ 117 ∷ 116 ∷ 105 ∷ 111 ∷ 110 ∷ 101 ∷ 114 ∷ [])
    ∷
        -- scribe
        (115 ∷ 99 ∷ 114 ∷ 105 ∷ 98 ∷ 101 ∷ [])
    ∷
        -- marauder
        (109 ∷ 97 ∷ 114 ∷ 97 ∷ 117 ∷ 100 ∷ 101 ∷ 114 ∷ [])
    ∷
        -- warpsmith
        (119 ∷ 97 ∷ 114 ∷ 112 ∷ 115 ∷ 109 ∷ 105 ∷ 116 ∷ 104 ∷ [])
    ∷
        -- ratcatcher
        (114 ∷ 97 ∷ 116 ∷ 99 ∷ 97 ∷ 116 ∷ 99 ∷ 104 ∷ 101 ∷ 114 ∷ [])
    ∷
        -- plague-bearer
        (112 ∷ 108 ∷ 97 ∷ 103 ∷ 117 ∷ 101 ∷ 45 ∷ 98 ∷ 101 ∷ 97 ∷ 114 ∷ 101 ∷ 114 ∷ [])
    ∷
        -- voidwalker
        (118 ∷ 111 ∷ 105 ∷ 100 ∷ 119 ∷ 97 ∷ 108 ∷ 107 ∷ 101 ∷ 114 ∷ [])
    ∷
        -- magus
        (109 ∷ 97 ∷ 103 ∷ 117 ∷ 115 ∷ [])
    ∷
        -- commissar
        (99 ∷ 111 ∷ 109 ∷ 109 ∷ 105 ∷ 115 ∷ 115 ∷ 97 ∷ 114 ∷ [])
    ∷
        -- avatar
        (97 ∷ 118 ∷ 97 ∷ 116 ∷ 97 ∷ 114 ∷ [])
    ∷
        -- stormcaller
        (115 ∷ 116 ∷ 111 ∷ 114 ∷ 109 ∷ 99 ∷ 97 ∷ 108 ∷ 108 ∷ 101 ∷ 114 ∷ [])
    ∷
        -- enforcer
        (101 ∷ 110 ∷ 102 ∷ 111 ∷ 114 ∷ 99 ∷ 101 ∷ 114 ∷ [])
    ∷
        -- nightstalker
        (110 ∷ 105 ∷ 103 ∷ 104 ∷ 116 ∷ 115 ∷ 116 ∷ 97 ∷ 108 ∷ 107 ∷ 101 ∷ 114 ∷ [])
    ∷ []
