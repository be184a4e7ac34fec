-- ===== src/Names/Words.antt =====
-- The word lists of src/chute/names.py.
use chute.Prelude.{List, [], ◌∷◌}
use chute.Prelude.Text.{Text, codes}

abbrev pub adjectives : List Text
adjectives =
    codes "amber"
    ∷ codes "ancient"
    ∷ codes "autumn"
    ∷ codes "azure"
    ∷ codes "bold"
    ∷ codes "brave"
    ∷ codes "bright"
    ∷ codes "brisk"
    ∷ codes "calm"
    ∷ codes "clever"
    ∷ codes "cobalt"
    ∷ codes "cosmic"
    ∷ codes "cozy"
    ∷ codes "crimson"
    ∷ codes "crisp"
    ∷ codes "curious"
    ∷ codes "daring"
    ∷ codes "deft"
    ∷ codes "eager"
    ∷ codes "early"
    ∷ codes "easy"
    ∷ codes "electric"
    ∷ codes "emerald"
    ∷ codes "fancy"
    ∷ codes "fleet"
    ∷ codes "fluffy"
    ∷ codes "fresh"
    ∷ codes "gentle"
    ∷ codes "giddy"
    ∷ codes "golden"
    ∷ codes "grand"
    ∷ codes "happy"
    ∷ codes "hazel"
    ∷ codes "humble"
    ∷ codes "indigo"
    ∷ codes "ivory"
    ∷ codes "jade"
    ∷ codes "jolly"
    ∷ codes "keen"
    ∷ codes "kind"
    ∷ codes "lively"
    ∷ codes "lucky"
    ∷ codes "lunar"
    ∷ codes "mellow"
    ∷ codes "merry"
    ∷ codes "mighty"
    ∷ codes "misty"
    ∷ codes "neat"
    ∷ codes "nimble"
    ∷ codes "noble"
    ∷ codes "olive"
    ∷ codes "plucky"
    ∷ codes "polar"
    ∷ codes "proud"
    ∷ codes "quick"
    ∷ codes "quiet"
    ∷ codes "rapid"
    ∷ codes "ruby"
    ∷ codes "rustic"
    ∷ codes "sandy"
    ∷ codes "scarlet"
    ∷ codes "shiny"
    ∷ codes "silent"
    ∷ codes "silver"
    ∷ codes "sleek"
    ∷ codes "snappy"
    ∷ codes "snowy"
    ∷ codes "solar"
    ∷ codes "spry"
    ∷ codes "stellar"
    ∷ codes "sunny"
    ∷ codes "swift"
    ∷ codes "teal"
    ∷ codes "tidy"
    ∷ codes "tiny"
    ∷ codes "vivid"
    ∷ codes "witty"
    ∷ codes "zany"
    ∷ codes "zesty"
    ∷ []

abbrev pub nouns : List Text
nouns =
    codes "acorn"
    ∷ codes "anchor"
    ∷ codes "aspen"
    ∷ codes "badger"
    ∷ codes "beacon"
    ∷ codes "birch"
    ∷ codes "bison"
    ∷ codes "bloom"
    ∷ codes "brook"
    ∷ codes "cedar"
    ∷ codes "cobra"
    ∷ codes "comet"
    ∷ codes "coral"
    ∷ codes "cove"
    ∷ codes "crane"
    ∷ codes "delta"
    ∷ codes "dune"
    ∷ codes "eagle"
    ∷ codes "ember"
    ∷ codes "falcon"
    ∷ codes "fern"
    ∷ codes "finch"
    ∷ codes "fjord"
    ∷ codes "flint"
    ∷ codes "fox"
    ∷ codes "gecko"
    ∷ codes "glade"
    ∷ codes "harbor"
    ∷ codes "hawk"
    ∷ codes "heron"
    ∷ codes "ivy"
    ∷ codes "koala"
    ∷ codes "lark"
    ∷ codes "lemur"
    ∷ codes "lichen"
    ∷ codes "lotus"
    ∷ codes "lynx"
    ∷ codes "maple"
    ∷ codes "marsh"
    ∷ codes "meadow"
    ∷ codes "moose"
    ∷ codes "moth"
    ∷ codes "otter"
    ∷ codes "owl"
    ∷ codes "panda"
    ∷ codes "peak"
    ∷ codes "pebble"
    ∷ codes "pine"
    ∷ codes "prairie"
    ∷ codes "quail"
    ∷ codes "quartz"
    ∷ codes "raven"
    ∷ codes "reef"
    ∷ codes "ridge"
    ∷ codes "river"
    ∷ codes "robin"
    ∷ codes "sage"
    ∷ codes "sparrow"
    ∷ codes "spruce"
    ∷ codes "stork"
    ∷ codes "stream"
    ∷ codes "summit"
    ∷ codes "swan"
    ∷ codes "thorn"
    ∷ codes "tiger"
    ∷ codes "topaz"
    ∷ codes "vale"
    ∷ codes "willow"
    ∷ codes "wolf"
    ∷ codes "wren"
    ∷ codes "yak"
    ∷ codes "zephyr"
    ∷ []
